-- ===== src/Render/Channel.antt =====
-- `class Channel` of treble/render/canvas.py: the colour groups, and that they can be compared.
use treble_tracker.Prelude.{ℕ, Eq, nat_eqb, ◌≡◌, ◌↔◌, true, arith}
use treble_tracker.Prelude.Bytes.{Bytes, codes}

pub data Channel : Type 0 where
  red blue green yellow orange purple : Channel

-- `Channel.value`
abbrev pub colour : Channel → Bytes
colour red = codes "red"
colour blue = codes "blue"
colour green = codes "green"
colour yellow = codes "yellow"
colour orange = codes "orange"
colour purple = codes "purple"

abbrev pub rank : Channel → ℕ
rank red = 0
rank blue = 1
rank green = 2
rank yellow = 3
rank orange = 4
rank purple = 5

pub channel_same_iff : (a b : Channel) → (nat_eqb (rank a) (rank b) ≡ true) ↔ (a ≡ b)
channel_same_iff a b = ground arith

instance abbrev pub channel_eq : Eq Channel
channel_eq = record { same = λ a b. nat_eqb (rank a) (rank b); same_iff = channel_same_iff }
