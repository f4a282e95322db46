-- ===== src/Files/Text/Ids.antt =====
-- What `validateID` lets through.
use astra_store_xion.Base.{
  ℕ, zero, suc, ◌≡◌, ◌≢◌, ◌↔◌, refl, subst, true, false, ◌≤◌, ◌⊎◌, Option, none, some, List, [],
  ◌∷◌, String, inl, inr, arith, ◌==◌, Bool-cases, length, All,
}
use astra_store_xion.Files.Text.{
  codes, is_hex, hex_run, dash, match_file_id, is_end, valid_id, ◌>>=◌,
}

-- One character of the expression.
pub data Slot : Type 0 where
  digit hyphen : Slot

-- 0 to 9, or a to f
abbrev pub IsLowerHex : ℕ → Type 0
IsLowerHex c = ((b'0' ≤ c) × (c ≤ b'9')) ⊎ ((b'a' ≤ c) × (c ≤ b'f'))

is_hex_iff : (c : ℕ) → (is_hex c ≡ true) ↔ IsLowerHex c
unfolding is_hex
is_hex_iff c = ground arith

abbrev pub Accepts : Slot → ℕ → Type 0
Accepts digit c = IsLowerHex c
Accepts hyphen c = c ≡ b'-'

abbrev pub Fits : List Slot → List ℕ → Type 0
Fits [] [] = Unit
Fits [] (c ∷ cs) = ⊥
Fits (s ∷ t) [] = ⊥
Fits (s ∷ t) (c ∷ cs) = Accepts s c × Fits t cs

abbrev pub digits : ℕ → List Slot → List Slot
digits zero t = t
digits (suc n) t = digit ∷ digits n t

-- 8-4-4-4-12
abbrev pub uuid : List Slot
uuid = digits 8 (hyphen ∷ digits 4 (hyphen ∷ digits 4 (hyphen ∷ digits 4 (hyphen ∷ digits 12 []))))

not_hex : (c : ℕ) → is_hex c ≡ false → IsLowerHex c → ⊥
not_hex c e h = let t = (is_hex_iff c).1 h in cc

-- `k` accepts just the texts that fit `t`.
record Parses (k : List ℕ → Option (List ℕ)) (t : List Slot) : Type 0 where
  at : (cs : List ℕ) → (is_end (k cs) ≡ true) ↔ Fits t cs

hex_run_iff :
    (n : ℕ) (k : List ℕ → Option (List ℕ)) (t : List Slot)
    → Parses k t
    → (cs : List ℕ) → (is_end (hex_run n cs >>= k) ≡ true) ↔ Fits (digits n t) cs
unfolding hex_run
hex_run_iff zero k t h cs = h.at cs
hex_run_iff (suc n) k t h [] = (λ e. cc, λ e. absurd e)
hex_run_iff (suc n) k t h (c ∷ cs) =
    let ih = hex_run_iff n k t h cs in
    elim (Bool-cases (is_hex c)) [
      | inl e ↦ rw e (λ p. ((is_hex_iff c).0 e, ih.0 p), λ p. ih.1 p.1)
      | inr e ↦ rw e (λ p. cc, λ p. absurd (not_hex c e p.0))
    ]

hex_run-Parses :
    (n : ℕ) (k : List ℕ → Option (List ℕ)) (t : List Slot)
    → Parses k t
    → Parses (λ cs. hex_run n cs >>= k) (digits n t)
hex_run-Parses n k t h = record { at = hex_run_iff n k t h }

dash_iff :
    (k : List ℕ → Option (List ℕ)) (t : List Slot)
    → Parses k t
    → (cs : List ℕ) → (is_end (dash cs >>= k) ≡ true) ↔ Fits (hyphen ∷ t) cs
dash_iff k t h [] = (λ e. cc, λ e. absurd e)
dash_iff k t h (c ∷ cs) = elim (Bool-cases (c == b'-')) [
  | inl e ↦ rw e (λ p. (ground arith, (h.at cs).0 p), λ p. (h.at cs).1 p.1)
  | inr e ↦ rw e (λ p. cc, λ p. absurd (ground arith))
]

dash-Parses :
    (k : List ℕ → Option (List ℕ)) (t : List Slot)
    → Parses k t
    → Parses (λ cs. dash cs >>= k) (hyphen ∷ t)
dash-Parses k t h = record { at = dash_iff k t h }

end_iff : (cs : List ℕ) → (is_end (some cs) ≡ true) ↔ Fits [] cs
end_iff [] = (λ e. tt, λ e. refl)
end_iff (c ∷ cs) = (λ e. cc, λ e. absurd e)

bind-some : (m : Option (List ℕ)) → (m >>= some) ≡ m
bind-some none = refl
bind-some (some r) = refl

last-Parses : Parses (hex_run 12) (digits 12 [])
last-Parses = record {
  at = λ cs.
      subst (λ m. (is_end m ≡ true) ↔ Fits (digits 12 []) cs) (bind-some (hex_run 12 cs))
        (hex_run_iff 12 some [] (record { at = end_iff }) cs);
}

-- An id is valid exactly when it is a lower-case hexadecimal UUID, of 36 characters.
pub valid_id_iff : (id : String) → (valid_id id ≡ true) ↔ Fits uuid (codes id)
unfolding valid_id match_file_id
valid_id_iff id =
    (hex_run-Parses 8 _ _ (
        dash-Parses _ _ (
          hex_run-Parses 4 _ _ (
            dash-Parses _ _ (
              hex_run-Parses 4 _ _
                (dash-Parses _ _ (hex_run-Parses 4 _ _ (dash-Parses _ _ last-Parses)))))))).at
      (codes id)

Fits-length : (t : List Slot) (cs : List ℕ) → Fits t cs → length cs ≡ length t
Fits-length [] [] h = refl
Fits-length [] (c ∷ cs) h = absurd h
Fits-length (s ∷ t) [] h = absurd h
Fits-length (s ∷ t) (c ∷ cs) h = omega (arith, Fits-length t cs h.1)

-- A character that means nothing to a path.
abbrev pub IsPlain : ℕ → Type 0
IsPlain c = (c ≢ b'/') × (c ≢ b'.') × (c ≢ 0)

Accepts-IsPlain : (s : Slot) (c : ℕ) → Accepts s c → IsPlain c
Accepts-IsPlain digit c h = (λ e. ground arith, λ e. ground arith, λ e. ground arith)
Accepts-IsPlain hyphen c h = (omega arith, omega arith, omega arith)

Fits-IsPlain : (t : List Slot) (cs : List ℕ) → Fits t cs → All IsPlain cs
Fits-IsPlain [] [] h = tt
Fits-IsPlain [] (c ∷ cs) h = absurd h
Fits-IsPlain (s ∷ t) [] h = absurd h
Fits-IsPlain (s ∷ t) (c ∷ cs) h = (Accepts-IsPlain s c h.0, Fits-IsPlain t cs h.1)

-- A valid id has 36 characters and none of `/`, `.` and NUL, so that joined to a directory it names
-- an entry of that directory.
pub valid_id_safe :
    (id : String) → valid_id id ≡ true → (length (codes id) ≡ 36) × All IsPlain (codes id)
valid_id_safe id h =
    let fits = (valid_id_iff id).0 h in
    (Fits-length uuid (codes id) fits, Fits-IsPlain uuid (codes id) fits)
