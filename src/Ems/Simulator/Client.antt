-- ===== src/Ems/Simulator/Client.antt =====
-- treble/ems/simulator.py: the requests that a client of the acceptor sends.
use treble_tracker.Prelude.{◌∷◌, []}
use treble_tracker.Prelude.Float.{FloatOps}
use treble_tracker.Prelude.Bytes.{Bytes}
use treble_tracker.Ems.Simplefix.{Simplefix, text}
use treble_tracker.Ems.Moment.{Moment, utc_stamp}
use treble_tracker.Ems.Session.{Session, encode}
use treble_tracker.Ems.Simulator.{
  FloatText, decimal, cl_ord_id, order_qty, ord_type, price_tag, side_tag, symbol_tag,
  orig_cl_ord_id, transact_time, new_order_single, cancel_request, cancel_replace_request,
}

module _ {F M : Type 0} (ops : FloatOps F) (floats : FloatText F) (fix : Simplefix M) where
  -- `new_order_single`
  unfoldable pub send_order : Bytes → Bytes → Bytes → F → F → Moment → Session → Bytes × Session
  send_order id symbol side quantity price now s =
      encode fix new_order_single
        ((cl_ord_id, text id)
          ∷ (symbol_tag, text symbol)
          ∷ (side_tag, text side)
          ∷ (order_qty, text (decimal ops floats fix quantity))
          ∷ (ord_type, text (b'2' ∷ []))
          ∷ (price_tag, text (decimal ops floats fix price))
          ∷ (transact_time, text (utc_stamp now))
          ∷ [])
        now s

  -- `cancel_request`
  unfoldable pub send_cancel : Bytes → Bytes → Bytes → Bytes → Moment → Session → Bytes × Session
  send_cancel id original symbol side now s =
      encode fix cancel_request
        ((cl_ord_id, text id)
          ∷ (orig_cl_ord_id, text original)
          ∷ (symbol_tag, text symbol)
          ∷ (side_tag, text side)
          ∷ [])
        now s

  -- `cancel_replace_request`
  unfoldable pub send_replace :
      Bytes → Bytes → Bytes → Bytes → F → F → Moment → Session → Bytes × Session
  send_replace id original symbol side quantity price now s =
      encode fix cancel_replace_request
        ((cl_ord_id, text id)
          ∷ (orig_cl_ord_id, text original)
          ∷ (symbol_tag, text symbol)
          ∷ (side_tag, text side)
          ∷ (order_qty, text (decimal ops floats fix quantity))
          ∷ (ord_type, text (b'2' ∷ []))
          ∷ (price_tag, text (decimal ops floats fix price))
          ∷ (transact_time, text (utc_stamp now))
          ∷ [])
        now s
