-- ===== src/Files/Io/Decides.antt =====
-- Operations that, on a run without faults, leave the world alone and succeed exactly when a test
-- of the world holds.
use astra_store_xion.Base.{◌≡◌, refl, Bool, true, false, not, ◌&&◌, []}
use astra_store_xion.Files.Model.{Err}
use astra_store_xion.Files.World.{Result, ok, err, World}
use astra_store_xion.Files.Io.{M, pure, raise, ◌>>=◌, ◌>>◌, raise_if}
use astra_store_xion.Files.Io.Runs.{bind_runs, bind_stops}

module _ {A : Type 0} where
  -- It ends in the same world: with a value that satisfies `P` if the test holds, else with an error.
  abbrev pub Decides : M A → World → Bool → (A → Type 0) → Type 0
  Decides m w true P = (a : A) × (m w [] ≡ (ok a, w, [])) × P a
  Decides m w false P = (e : Err) × (m w [] ≡ (err e, w, []))

  abbrev pub is_ok : Result A → Bool
  is_ok (ok a) = true
  is_ok (err e) = false

  pub Decides-pure : (a : A) (w : World) (P : A → Type 0) → P a → Decides (pure a) w true P
  unfolding pure
  Decides-pure a w P x = (a, refl, x)

  pub Decides-raise : (e : Err) (w : World) → (x : Err) × (raise {A = A} e w [] ≡ (err x, w, []))
  unfolding raise
  Decides-raise e w = (e, refl)

  -- A run that is known.
  pub Decides-run :
      (m : M A) (w : World) (r : Result A)
      → m w [] ≡ (r, w, [])
      → Decides m w (is_ok r) (λ a. r ≡ ok a)
  Decides-run m w (ok a) e = (a, e, refl)
  Decides-run m w (err x) e = (x, e)

module _ {A B : Type 0} (m : M A) (f : A → M B) (w : World) (P : A → Type 0) (Q : B → Type 0) where
  pub Decides-then :
      (a : A) (c : Bool) → m w [] ≡ (ok a, w, []) → Decides (f a) w c Q → Decides (m >>= f) w c Q
  Decides-then a true e h = (h.0, bind_runs m f e h.1, h.2)
  Decides-then a false e h = (h.0, bind_runs m f e h.1)

  pub Decides-bind :
      (b c : Bool)
      → Decides m w b P
      → ((a : A) → P a → Decides (f a) w c Q)
      → Decides (m >>= f) w (b && c) Q
  Decides-bind true c h k = Decides-then h.0 c h.1 (k h.0 h.2)
  Decides-bind false c h k = (h.0, bind_stops m f h.1)

-- A step that fails decides all.
pub Decides-stops :
    {A B : Type 0} (m : M A) (f : A → M B) (w : World)
    → (e : Err) × (m w [] ≡ (err e, w, []))
    → (e : Err) × ((m >>= f) w [] ≡ (err e, w, []))
Decides-stops m f w h = (h.0, bind_stops m f h.1)

pub Decides-raise_if :
    (b : Bool) (e : Err) (w : World) → Decides (raise_if b e) w (not b) (λ u. b ≡ false)
unfolding raise_if raise pure
Decides-raise_if true e w = (e, refl)
Decides-raise_if false e w = (tt, refl, refl)

module _ {B : Type 0} (Q : B → Type 0) (w : World) where
  -- A guard in front.
  pub Decides-guard :
      (b : Bool) (e : Err) (n : M B) (c : Bool)
      → (b ≡ true → Decides n w c Q)
      → Decides (raise_if (not b) e >> n) w (b && c) Q
  Decides-guard true e n c h =
      Decides-bind (raise_if false e) (λ u. n) w (λ u. false ≡ false) Q true c
        (Decides-raise_if false e w) (λ u x. h refl)
  Decides-guard false e n c h =
      Decides-bind (raise_if true e) (λ u. n) w (λ u. true ≡ false) Q false c
        (Decides-raise_if true e w) (λ u x. cc)

  -- A last step that only returns.
  pub Decides-last :
      {A : Type 0} (m : M A) (f : A → M B) (P : A → Type 0) (b : Bool)
      → Decides m w b P
      → ((a : A) → P a → Decides (f a) w true Q)
      → Decides (m >>= f) w b Q
  Decides-last m f P true h k = Decides-bind m f w P Q true true h k
  Decides-last m f P false h k = Decides-bind m f w P Q false true h k

-- The result agrees with the test.
pub Decides-is_ok :
    {A : Type 0} (m : M A) (w : World) (b : Bool) (P : A → Type 0)
    → Decides m w b P
    → (is_ok (m w []).0 ≡ b) × ((m w []).1 ≡ w)
Decides-is_ok m w true P h = (rw h.1 refl, rw h.1 refl)
Decides-is_ok m w false P h = (rw h.1 refl, rw h.1 refl)
