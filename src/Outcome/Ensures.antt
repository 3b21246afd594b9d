-- ===== src/Outcome/Ensures.antt =====
-- Total correctness of a call: it is ready and does not panic, what it returns satisfies `Q`, and its error `F`.
use efcp.Outcome.{Outcome, ok, err, panic, pending, ◌>>=◌, map_err}

abbrev pub Ensures : {E A : Type 0} → (E → Type 0) → (A → Type 0) → Outcome E A → Type 0
Ensures F Q (ok a) = Q a
Ensures F Q (err e) = F e
Ensures F Q panic = ⊥
Ensures F Q pending = ⊥

module _ {E A B : Type 0} (F : E → Type 0) (P : A → Type 0) (Q : B → Type 0) where
  pub Ensures-bind :
      (m : Outcome E A) (f : A → Outcome E B)
      → Ensures F P m
      → ((a : A) → P a → Ensures F Q (f a))
      → Ensures F Q (m >>= f)
  Ensures-bind (ok a) f h k = k a h
  Ensures-bind (err e) f h k = h
  Ensures-bind panic f h k = h
  Ensures-bind pending f h k = h

pub Ensures-map_err :
    {D E A : Type 0} (F : D → Type 0) (G : E → Type 0) (Q : A → Type 0) (g : D → E)
    (m : Outcome D A)
    → Ensures F Q m
    → ((d : D) → F d → G (g d))
    → Ensures G Q (map_err g m)
Ensures-map_err F G Q g (ok a) h k = h
Ensures-map_err F G Q g (err d) h k = k d h
Ensures-map_err F G Q g panic h k = h
Ensures-map_err F G Q g pending h k = h

pub Ensures-weaken :
    {E A : Type 0} (F : E → Type 0) (Q R : A → Type 0) (m : Outcome E A)
    → Ensures F Q m
    → ((a : A) → Q a → R a)
    → Ensures F R m
Ensures-weaken F Q R (ok a) h k = k a h
Ensures-weaken F Q R (err e) h k = h
Ensures-weaken F Q R panic h k = h
Ensures-weaken F Q R pending h k = h
