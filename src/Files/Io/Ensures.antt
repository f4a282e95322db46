-- ===== src/Files/Io/Ensures.antt =====
-- What holds after an operation that succeeds, whatever the faults were.
use astra_store_xion.Base.{◌≡◌, refl, subst, Bool, true, false, List, if◌then◌else◌}
use astra_store_xion.Files.Model.{Err}
use astra_store_xion.Files.World.{Result, ok, err, Fault, World}
use astra_store_xion.Files.Io.{
  M, Out, pure, raise, gets, continue, ◌>>=◌, raise_if, after_error, on_error,
}
use astra_store_xion.Files.Io.Quiet.{Same, Quiet}

-- Of an error it says nothing.
abbrev pub Returns : {A : Type 0} → (A → World → Type 0) → Out A → Type 0
Returns Q (ok a, w, p) = Q a w
Returns Q (err e, w, p) = Unit

-- The accounts are those of `v`.
pub record Ensures {A : Type 0} (P : World → Type 0) (m : M A) (Q : A → World → Type 0)
    : Type 0 where
  pub at : (w : World) (p : List Fault) → P w → Returns Q (m w p)

module _ {A B : Type 0} (P : World → Type 0) (Q : A → World → Type 0) (R : B → World → Type 0) where
  continue-Returns :
      (r : Result A) (f : A → M B) (w : World) (p : List Fault)
      → Returns Q (r, w, p)
      → ((a : A) → Ensures (Q a) (f a) R)
      → Returns R (continue r f w p)
  continue-Returns (ok a) f w p q h = (h a).at w p q
  continue-Returns (err e) f w p q h = tt

  pub Ensures-bind :
      (m : M A) (f : A → M B)
      → Ensures P m Q
      → ((a : A) → Ensures (Q a) (f a) R)
      → Ensures P (m >>= f) R
  unfolding ◌>>=◌
  Ensures-bind m f h k = record {
    at = λ w p x. let (r, w', p') = m w p in continue-Returns r f w' p' (h.at w p x) k;
  }

module _ {A : Type 0} (P : World → Type 0) (Q : A → World → Type 0) where
  after_error-Returns :
      (r : Result A) (c : M (Unit {0})) (w : World) (p : List Fault)
      → Returns Q (r, w, p)
      → Returns Q (after_error r c w p)
  after_error-Returns (ok a) c w p q = q
  after_error-Returns (err e) c w p q = tt

  pub Ensures-on_error : (m : M A) (c : M (Unit {0})) → Ensures P m Q → Ensures P (on_error m c) Q
  unfolding on_error
  Ensures-on_error m c h = record {
    at = λ w p x. let (r, w', p') = m w p in after_error-Returns r c w' p' (h.at w p x);
  }

  pub Ensures-pure : (a : A) → ((w : World) → P w → Q a w) → Ensures P (pure a) Q
  unfolding pure
  Ensures-pure a h = record { at = λ w p x. h w x }

-- A quiet step keeps whatever only speaks of the accounts.
pub record Accounts (P : World → Type 0) : Type 0 where
  pub keeps : {v w : World} → Same v w → P v → P w

module _ {A : Type 0} (P : World → Type 0) (accounts : Accounts P) where
  quiet-Returns : (o : Out A) (v : World) → Same v o.1 → P v → Returns (λ a w. P w) o
  quiet-Returns (ok a, w, p) v s x = accounts.keeps s x
  quiet-Returns (err e, w, p) v s x = tt

  pub Ensures-Quiet : (m : M A) → Quiet m → Ensures P m (λ a w. P w)
  Ensures-Quiet m h = record { at = λ w p x. quiet-Returns (m w p) w (h.at w p) x }

module _ {A : Type 0} (P : World → Type 0) where
  pub Ensures-gets : (f : World → A) → Ensures P (gets f) (λ a w. P w × (a ≡ f w))
  unfolding gets
  Ensures-gets f = record { at = λ w p x. (x, refl) }

-- What a test let through is known afterwards.
pub Ensures-raise_if :
    (P : World → Type 0) (b : Bool) (e : Err) → Ensures P (raise_if b e) (λ a w. P w × (b ≡ false))
unfolding raise_if raise pure
Ensures-raise_if P true e = record { at = λ w p x. tt }
Ensures-raise_if P false e = record { at = λ w p x. (x, refl) }

module _ {A : Type 0} (P : World → Type 0) (Q : A → World → Type 0) where
  pub Ensures-if :
      (b : Bool) (m n : M A)
      → (b ≡ true → Ensures P m Q)
      → (b ≡ false → Ensures P n Q)
      → Ensures P (if b then m else n) Q
  Ensures-if true m n h k = h refl
  Ensures-if false m n h k = k refl

  -- A fact that does not speak of the world.
  pub Ensures-given : {F : Type 0} (m : M A) → (F → Ensures P m Q) → Ensures (λ w. P w × F) m Q
  Ensures-given m h = record { at = λ w p x. (h x.1).at w p x.0 }

  pub Ensures-weaken :
      (R : A → World → Type 0) (m : M A)
      → ((a : A) (w : World) → Q a w → R a w)
      → Ensures P m Q
      → Ensures P m R
  Ensures-weaken R m k h = record { at = λ w p x. weaken (m w p) (h.at w p x) }
    where
      weaken : (o : Out A) → Returns Q o → Returns R o
      weaken (ok a, w, p) x = k a w x
      weaken (err e, w, p) x = tt

module _ {A B : Type 0} (P : World → Type 0) (accounts : Accounts P) (R : B → World → Type 0) where
  -- A quiet step in front.
  pub Ensures-then :
      (m : M A) (f : A → M B) → Quiet m → ((a : A) → Ensures P (f a) R) → Ensures P (m >>= f) R
  Ensures-then m f h k = Ensures-bind P (λ a w. P w) R m f (Ensures-Quiet P accounts m h) k

pub Accounts-given : {F : Type 0} (P : World → Type 0) → Accounts P → Accounts (λ w. P w × F)
Accounts-given P h = record { keeps = λ s x. (h.keeps s x.0, x.1) }

pub Ensures-ok :
    {A : Type 0} {P : World → Type 0} {m : M A} {Q : A → World → Type 0}
    → Ensures P m Q
    → (v : World) (p : List Fault) {a : A} {w : World} {p' : List Fault} → P v
    → m v p ≡ (ok a, w, p')
    → Q a w
Ensures-ok {Q = Q} h v p x e = subst (Returns Q) e (h.at v p x)
