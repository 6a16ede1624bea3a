-- ===== src/Plant/Quotes/Standing.antt =====
-- Each contributor's standing quote, which no other contributor's call changes.
use treble_tracker.Prelude.{
  ℕ, ◌≡◌, refl, sym, ap, ◌∙◌, subst, List, [], ◌∷◌, Option, none, some, Bool, true, false, ◌&&◌,
  arith, bytes_eq, bytes_eqb_iff, if◌then◌else◌, ltb, ◌==◌, Option-cases, inl, inr,
}
use treble_tracker.Prelude.Dict.{
  IsDict, get, put, erase, get-put, get-erase_self, get-erase_ne, put-IsDict, erase-IsDict,
}
use treble_tracker.Prelude.Bytes.{Bytes}
use treble_tracker.Plant.Quotes.{
  Quote, QuoteBook, quotes_of, stand, contribute, withdraw, new_quote_book,
}

module _ {F : Type 0} where
  unfoldable pub standing : Bytes → Bytes → QuoteBook F → Option (Quote F)
  unfolding quotes_of
  standing subject contributor b = get contributor (quotes_of subject b)

  -- A later quote replaces the earlier one of its contributor, an older one changes nothing.
  abbrev pub newer : Quote F → Option (Quote F) → Option (Quote F)
  newer q none = some q
  newer q (some e) = if ltb q.quoted_at e.quoted_at then some e else some q

  abbrev pub is_from : Bytes → Bytes → Quote F → Bool
  is_from subject contributor q = (q.subject == subject) && (q.contributor == contributor)

  IsTidy : QuoteBook F → Type 0
  IsTidy b = (subject : Bytes) → IsDict (quotes_of subject b)

  stand-quotes_of :
      (subject : Bytes) (q : Quote F) (b : QuoteBook F)
      → quotes_of subject (stand q b) ≡ (
          if q.subject == subject
          then put q.contributor q (quotes_of q.subject b)
          else quotes_of subject b)
  unfolding quotes_of stand
  stand-quotes_of subject q b =
      ground
        (arith, get-put q.subject subject (put q.contributor q (quotes_of q.subject b)) b.quotes)

  stand-standing :
      (subject contributor : Bytes) (q : Quote F) (b : QuoteBook F)
      → standing subject contributor (stand q b)
        ≡ (if is_from subject contributor q then some q else standing subject contributor b)
  unfolding standing
  stand-standing subject contributor q b = ground (
    arith,
    stand-quotes_of subject q b,
    get-put q.contributor contributor q (quotes_of q.subject b),
    bytes_eqb_iff q.subject subject,
  )

  contribute-standing :
      (subject contributor : Bytes) (q : Quote F) (b : QuoteBook F)
      → standing subject contributor (contribute q b) ≡ (
          if is_from subject contributor q
          then newer q (standing subject contributor b)
          else standing subject contributor b)
  unfolding standing contribute
  contribute-standing subject contributor q b = ground (
    arith,
    stand-standing subject contributor q b,
    bytes_eqb_iff q.subject subject,
    bytes_eqb_iff q.contributor contributor,
  )

  withdraw-quotes_of :
      (subject other contributor : Bytes) (b : QuoteBook F)
      → quotes_of subject (withdraw other contributor b)
        ≡ (if other == subject then erase contributor (quotes_of other b) else quotes_of subject b)
  unfolding quotes_of withdraw erase
  withdraw-quotes_of subject other contributor b = elim (Option-cases (get other b.quotes)) [
    | inl e ↦ ground (arith, e, bytes_eqb_iff other subject)
    | inr e ↦ ground (arith, e.1, get-put other subject (erase contributor e.0) b.quotes)
  ]

  withdraw-standing :
      (subject contributor other who : Bytes) (b : QuoteBook F)
      → IsTidy b
      → standing subject contributor (withdraw other who b) ≡ (
          if (other == subject) && (who == contributor)
          then none
          else standing subject contributor b)
  unfolding standing IsTidy
  withdraw-standing subject contributor other who b h = ground (
    arith,
    withdraw-quotes_of subject other who b,
    get-erase_self who (quotes_of other b) (h other),
    get-erase_ne who contributor (quotes_of other b),
    bytes_eqb_iff other subject,
    bytes_eqb_iff who contributor,
  )

  stand-IsTidy : (q : Quote F) (b : QuoteBook F) → IsTidy b → IsTidy (stand q b)
  unfolding IsTidy
  stand-IsTidy q b h subject =
      subst IsDict (sym (stand-quotes_of subject q b))
        (elim (q.subject == subject)
          as (λ c.
            IsDict
              (if c then put q.contributor q (quotes_of q.subject b) else quotes_of subject b)) [
                | true ↦ put-IsDict q.contributor q (quotes_of q.subject b) (h q.subject)
                | false ↦ h subject
              ])

  contribute-IsTidy : (q : Quote F) (b : QuoteBook F) → IsTidy b → IsTidy (contribute q b)
  unfolding contribute
  contribute-IsTidy q b h =
      elim (get q.contributor (quotes_of q.subject b))
        as (λ o. IsTidy (elim o [
          | none ↦ stand q b
          | some e ↦ if ltb q.quoted_at e.quoted_at then b else stand q b
        ])) [
          | none ↦ stand-IsTidy q b h
          | some e ↦
              elim (ltb q.quoted_at e.quoted_at) as (λ c. IsTidy (if c then b else stand q b)) [
                | true ↦ h
                | false ↦ stand-IsTidy q b h
              ]
        ]

  withdraw-IsTidy : (other who : Bytes) (b : QuoteBook F) → IsTidy b → IsTidy (withdraw other who b)
  unfolding IsTidy
  withdraw-IsTidy other who b h subject =
      subst IsDict (sym (withdraw-quotes_of subject other who b))
        (elim (other == subject)
          as (λ c. IsDict (if c then erase who (quotes_of other b) else quotes_of subject b)) [
            | true ↦ erase-IsDict who (quotes_of other b) (h other)
            | false ↦ h subject
          ])

-- A call at the book by a contributor.
pub data Call (F : Type 0) : Type 0 where
  contributes : Quote F → Call F
  withdraws : Bytes → Bytes → Call F

module _ {F : Type 0} where
  abbrev pub after : List (Call F) → QuoteBook F → QuoteBook F
  after [] b = b
  after (contributes q ∷ cs) b = after cs (contribute q b)
  after (withdraws subject who ∷ cs) b = after cs (withdraw subject who b)

  -- One contributor's quote of one instrument, from the calls that are about it.
  abbrev pub own : Bytes → Bytes → List (Call F) → Option (Quote F) → Option (Quote F)
  own subject contributor [] o = o
  own subject contributor (contributes q ∷ cs) o =
      own subject contributor cs (if is_from subject contributor q then newer q o else o)
  own subject contributor (withdraws other who ∷ cs) o =
      own subject contributor cs (if (other == subject) && (who == contributor) then none else o)

  after-standing :
      (subject contributor : Bytes) (cs : List (Call F)) (b : QuoteBook F)
      → IsTidy b
      → standing subject contributor (after cs b)
        ≡ own subject contributor cs (standing subject contributor b)
  after-standing subject contributor [] b h = refl
  after-standing subject contributor (contributes q ∷ cs) b h =
      after-standing subject contributor cs (contribute q b) (contribute-IsTidy q b h)
      ∙ ap (own subject contributor cs) (contribute-standing subject contributor q b)
  after-standing subject contributor (withdraws other who ∷ cs) b h =
      after-standing subject contributor cs (withdraw other who b) (withdraw-IsTidy other who b h)
      ∙ ap (own subject contributor cs) (withdraw-standing subject contributor other who b h)

  -- After any calls at a new book, a contributor's quote of an instrument is what its own calls about
  -- that instrument make it: the newest quote, of two at one time the later call's, since it withdrew.
  pub standing-own :
      (subject contributor : Bytes) (cs : List (Call F)) (ttl : ℕ)
      → standing subject contributor (after cs (new_quote_book ttl))
        ≡ own subject contributor cs none
  unfolding standing quotes_of get IsTidy
  standing-own subject contributor cs ttl =
      after-standing subject contributor cs (new_quote_book ttl) (λ s. tt)
