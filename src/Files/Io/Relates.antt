-- ===== src/Files/Io/Relates.antt =====
-- Operations whose world after is related to the world before, whatever fails and whatever they
-- return, for a relation that is reflexive and transitive.
use astra_store_xion.Base.{Bool, true, false, Option, none, some, List, [], ◌∷◌, if◌then◌else◌}
use astra_store_xion.Files.Model.{Err}
use astra_store_xion.Files.World.{Result, ok, err, Env, Fault, pass, fail, World, Ctx, live, done}
use astra_store_xion.Files.Io.{
  M, pure, raise, gets, or_raise, from_result, test, continue, ◌>>=◌, raise_if, attempt, if_missing,
  syscall, check, read_file, read_dir, stat_size,
}
use astra_store_xion.Files.Disk.{FilePath, Area}

pub record IsOrder (R : World → World → Type 0) : Type 0 where
  pub same : (w : World) → R w w
  pub trans : {u v w : World} → R u v → R v w → R u w

pub record Relates (R : World → World → Type 0) {A : Type 0} (m : M A) : Type 0 where
  pub at : (w : World) (p : List Fault) → R w (m w p).1

module _ {R : World → World → Type 0} (order : IsOrder R) where
  module _ {A : Type 0} where
    pub Relates-pure : (a : A) → Relates R (pure a)
    unfolding pure
    Relates-pure a = record { at = λ w p. order.same w }

    pub Relates-raise : (e : Err) → Relates R (raise {A = A} e)
    unfolding raise
    Relates-raise e = record { at = λ w p. order.same w }

    pub Relates-gets : (f : World → A) → Relates R (gets f)
    unfolding gets
    Relates-gets f = record { at = λ w p. order.same w }

    pub Relates-or_raise : (o : Option A) (e : Err) → Relates R (or_raise o e)
    unfolding or_raise pure raise
    Relates-or_raise none e = record { at = λ w p. order.same w }
    Relates-or_raise (some a) e = record { at = λ w p. order.same w }

    pub Relates-from_result : (r : Result A) → Relates R (from_result r)
    unfolding from_result
    Relates-from_result r = record { at = λ w p. order.same w }

    pub Relates-test : (f : World → Result A) → Relates R (test f)
    unfolding test
    Relates-test f = record { at = λ w p. order.same w }

    pub Relates-if :
        (b : Bool) (m n : M A) → Relates R m → Relates R n → Relates R (if b then m else n)
    Relates-if true m n h k = h
    Relates-if false m n h k = k

    pub Relates-attempt : (m : M A) → Relates R m → Relates R (attempt m)
    unfolding attempt
    Relates-attempt m h = record { at = λ w p. h.at w p }

    pub Relates-if_missing : (e : Err) (m : M A) → Relates R m → Relates R (if_missing e m)
    unfolding if_missing
    Relates-if_missing e m h = record { at = λ w p. h.at w p }

  module _ {A B : Type 0} where
    continue-related :
        (u : World) (r : Result A) (f : A → M B) (w : World) (p : List Fault)
        → ((a : A) → Relates R (f a))
        → R u w
        → R u (continue r f w p).1
    continue-related u (ok a) f w p h x = order.trans x ((h a).at w p)
    continue-related u (err e) f w p h x = x

    pub Relates-bind :
        (m : M A) (f : A → M B) → Relates R m → ((a : A) → Relates R (f a)) → Relates R (m >>= f)
    unfolding ◌>>=◌
    Relates-bind m f h k = record {
      at = λ w p. let (r, w', p') = m w p in continue-related w r f w' p' k (h.at w p);
    }

  pub Relates-raise_if : (b : Bool) (e : Err) → Relates R (raise_if b e)
  unfolding raise_if raise pure
  Relates-raise_if true e = record { at = λ w p. order.same w }
  Relates-raise_if false e = record { at = λ w p. order.same w }

  pub Relates-check : (ctx : Ctx) → Relates R (check ctx)
  unfolding check raise pure
  Relates-check live = record { at = λ w p. order.same w }
  Relates-check done = record { at = λ w p. order.same w }

  syscall-related : (w : World) (p : List Fault) → R w (syscall w p).1
  unfolding syscall
  syscall-related w [] = order.same w
  syscall-related w (pass ∷ p) = order.same w
  syscall-related w (fail k ∷ p) = order.same w

  pub Relates-syscall : Relates R syscall
  Relates-syscall = record { at = syscall-related }

  pub Relates-read_file : (path : FilePath) → Relates R (read_file path)
  unfolding read_file
  Relates-read_file path = Relates-bind syscall _ Relates-syscall (λ u. Relates-test _)

  pub Relates-read_dir : (a : Area) → Relates R (read_dir a)
  unfolding read_dir
  Relates-read_dir a = Relates-bind syscall _ Relates-syscall (λ u. Relates-gets _)

  pub Relates-stat_size : (env : Env) (path : FilePath) → Relates R (stat_size env path)
  unfolding stat_size
  Relates-stat_size env path =
      Relates-bind (read_file path) _ (Relates-read_file path) (λ c. Relates-pure _)

pub ruleset relates_rules = (
  Relates-pure, Relates-raise, Relates-gets, Relates-or_raise, Relates-from_result, Relates-test,
  Relates-if, Relates-attempt, Relates-if_missing, Relates-bind, Relates-raise_if, Relates-check,
  Relates-syscall, Relates-read_file, Relates-read_dir, Relates-stat_size,
)
