-- ===== src/Server/Life/Clients.antt =====
-- The clients of a server as a map: what adding, removing and closing them keeps.
use broadcast.Common.{
  ◌≡◌, refl, ◌∙◌, some, [], ◌∷◌, arith, Bytes, length, inl, inr, Bool-cases, same,
}
use broadcast.Dict.{Dict, lookup, has, insert, remove}
use broadcast.Dict.Distinct.{IsDistinct}
use broadcast.Server.{NetworkClient}
use broadcast.Server.Life.Closing.{IsTwin, AllTwin, shut_all}

pub insert-AllTwin :
    (k : Bytes) (c : NetworkClient) (d : Dict NetworkClient)
    → IsTwin c
    → AllTwin d
    → AllTwin (insert k c d)
unfolding insert
insert-AllTwin k c [] h hs = (h, tt)
insert-AllTwin k c ((j, w) ∷ d) h (hw, hs) = elim (Bool-cases (same j k)) [
  | inl e ↦ rw e (h, hs)
  | inr e ↦ rw e (hw, insert-AllTwin k c d h hs)
]

pub remove-AllTwin : (k : Bytes) (d : Dict NetworkClient) → AllTwin d → AllTwin (remove k d)
unfolding remove
remove-AllTwin k [] hs = tt
remove-AllTwin k ((j, w) ∷ d) (hw, hs) = elim (Bool-cases (same j k)) [
  | inl e ↦ rw e (remove-AllTwin k d hs)
  | inr e ↦ rw e (hw, remove-AllTwin k d hs)
]

pub lookup-IsTwin :
    (k : Bytes) (c : NetworkClient) (d : Dict NetworkClient)
    → AllTwin d
    → lookup k d ≡ some c
    → IsTwin c
unfolding lookup
lookup-IsTwin k c [] hs e = cc
lookup-IsTwin k c ((j, w) ∷ d) (hw, hs) e = elim (Bool-cases (same j k)) [
  | inl f ↦ let p : c ≡ w = ground arith in rw p hw
  | inr f ↦ lookup-IsTwin k c d hs (ground arith)
]

has-shut_all : (k : Bytes) (d : Dict NetworkClient) → has k (shut_all d) ≡ has k d
unfolding has lookup
has-shut_all k [] = refl
has-shut_all k ((j, w) ∷ d) = ground (arith, has-shut_all k d)

pub shut_all-IsDistinct : (d : Dict NetworkClient) → IsDistinct d → IsDistinct (shut_all d)
shut_all-IsDistinct [] h = tt
shut_all-IsDistinct ((j, w) ∷ d) (h, hs) = (has-shut_all j d ∙ h, shut_all-IsDistinct d hs)

pub shut_all-AllTwin : (d : Dict NetworkClient) → AllTwin d → AllTwin (shut_all d)
shut_all-AllTwin [] h = tt
shut_all-AllTwin ((j, w) ∷ d) (h, hs) =
    (record { conn = h.conn; channels = refl }, shut_all-AllTwin d hs)

pub length-shut_all : (d : Dict NetworkClient) → length (shut_all d) ≡ length d
length-shut_all [] = refl
length-shut_all (e ∷ d) = omega (arith, length-shut_all d)
