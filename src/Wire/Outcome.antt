-- ===== src/Wire/Outcome.antt =====
-- What becomes of a WriteArray on a connection that fails midway.
use broadcast.Common.{◌≤◌, ◌≡◌, ◌↔◌, false, none, List, ◌++◌, length, take}
use broadcast.Wire.{Value, Platform}
use broadcast.Wire.Write.{Writer, write_array}
use broadcast.Wire.Frame.{array_frame, write_array-frame, sent_result}

-- On a writer that has not failed WriteArray sends its frame up to what the connection has room for,
-- and its error is nil exactly when that is the whole frame.
write_array_result :
    (p : Platform) (vs : List Value) (w : Writer)
    → w.failed ≡ false
    → ((write_array p vs w).0.out ≡ w.out ++ take w.budget (array_frame p vs))
      × (((write_array p vs w).1 ≡ none) ↔ (length (array_frame p vs) ≤ w.budget))
write_array_result p vs w h = rw (write_array-frame p vs w) (sent_result (array_frame p vs) w h)
