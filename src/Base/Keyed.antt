-- ===== src/Base/Keyed.antt =====
-- Rows that are kept in a `Map` under their ids, as pages of them arrive.
use Prim.Native.Nat.{ℕ, zero, suc, ◌+◌, ◌*◌, ◌≤◌, min}
use Prim.Native.String.{String}
use mathlib.Core.Path.{◌≡◌, refl, sym, ap, ◌∙◌}
use mathlib.Core.Bool.{Bool, true, false, not, ◌&&◌}
use mathlib.Core.Option.{none}
use mathlib.Core.List.{List, [], ◌∷◌, ◌++◌}
use text.Mathlib.Text.{◌==◌ as str_eq}
use native.Mathlib.Omega.{arith}
use ai_erp.Base.Lists.{length, take, drop, any, length-take}
use ai_erp.Base.Dict.{Dict, get, put, values}

module _ {A : Type 0} where
  any-middle : (p : A → Bool) (ds rs : List A) (r : A) → any p (ds ++ r ∷ rs) ≡ false → p r ≡ false
  any-middle p [] rs r h = ground arith
  any-middle p (d ∷ ds) rs r h = any-middle p ds rs r (ground arith)

  append_assoc : (done rs : List A) (r : A) → (done ++ r ∷ []) ++ rs ≡ done ++ r ∷ rs
  append_assoc [] rs r = refl
  append_assoc (d ∷ done) rs r = ap (λ t. d ∷ t) (append_assoc done rs r)

  pub append-nil : (done : List A) → done ++ [] ≡ done
  append-nil [] = refl
  append-nil (d ∷ done) = ap (λ t. d ∷ t) (append-nil done)

  pub take-nil : (n : ℕ) → take {A = A} n [] ≡ []
  take-nil zero = refl
  take-nil (suc n) = refl

  pub take-add : (n k : ℕ) (rs : List A) → take n rs ++ take k (drop n rs) ≡ take (n + k) rs
  take-add zero k rs = ap (λ j. take j rs) (omega arith)
  take-add (suc n) k [] = take-nil k ∙ sym (take-nil (suc n + k))
  take-add (suc n) k (r ∷ rs) =
      let e : suc n + k ≡ suc (n + k) = omega arith in rw e (ap (λ t. r ∷ t) (take-add n k rs))

  any-take : (p : A → Bool) (n : ℕ) (rs : List A) → any p rs ≡ false → any p (take n rs) ≡ false
  any-take p zero rs h = refl
  any-take p (suc n) [] h = refl
  any-take p (suc n) (r ∷ rs) h = ground (arith, any-take p n rs)

  pub take-all : (n : ℕ) (rs : List A) → length rs ≤ n → take n rs ≡ rs
  take-all zero [] h = refl
  take-all zero (r ∷ rs) h = absurd (omega arith)
  take-all (suc n) [] h = refl
  take-all (suc n) (r ∷ rs) h = ap (λ t. r ∷ t) (take-all n rs (omega arith))

module _ {A : Type 0} (id : A → String) where
  -- `rows.forEach(row => byId.set(row.id, row))`
  unfoldable pub set_all : List A → Dict A → Dict A
  set_all [] m = m
  set_all (r ∷ rs) m = set_all rs (put (id r) r m)

  -- No two rows have one id.
  abbrev pub distinct : List A → Bool
  distinct [] = true
  distinct (r ∷ rs) = not (any (λ x. str_eq (id r) (id x)) rs) && distinct rs

  abbrev pub entries : List A → Dict A
  entries [] = []
  entries (r ∷ rs) = (id r, r) ∷ entries rs

  pub values-entries : (rs : List A) → values (entries rs) ≡ rs
  values-entries [] = refl
  values-entries (r ∷ rs) = ap (λ t. r ∷ t) (values-entries rs)

  pub length-entries : (rs : List A) → length (entries rs) ≡ length rs
  length-entries [] = refl
  length-entries (r ∷ rs) = ap suc (length-entries rs)

  get-entries :
      (done rs : List A) (r : A)
      → distinct (done ++ r ∷ rs) ≡ true
      → get (id r) (entries done) ≡ none
  unfolding get
  get-entries [] rs r h = refl
  get-entries (d ∷ done) rs r h =
      let other : str_eq (id d) (id r) ≡ false =
        any-middle (λ x. str_eq (id d) (id x)) done rs r (ground arith) in
      rw other (get-entries done rs r (ground arith))

  put-fresh : (k : String) (v : A) (m : Dict A) → get k m ≡ none → put k v m ≡ m ++ (k, v) ∷ []
  unfolding get put
  put-fresh k v [] h = refl
  put-fresh k v ((j, w) ∷ m) h = ground (arith, put-fresh k v m)

  entries-append :
      (done : List A) (r : A) → entries done ++ (id r, r) ∷ [] ≡ entries (done ++ r ∷ [])
  entries-append [] r = refl
  entries-append (d ∷ done) r = ap (λ t. (id d, d) ∷ t) (entries-append done r)

  pub set_all-entries :
      (rs done : List A)
      → distinct (done ++ rs) ≡ true
      → set_all rs (entries done) ≡ entries (done ++ rs)
  unfolding set_all
  set_all-entries [] done h = ap entries (sym (append-nil done))
  set_all-entries (r ∷ rs) done h =
      let fresh = put-fresh (id r) r (entries done) (get-entries done rs r h) in
      rw (fresh, entries-append done r)
        (set_all-entries rs (done ++ r ∷ []) (ap distinct (append_assoc done rs r) ∙ h)
          ∙ ap entries (append_assoc done rs r))

  pub distinct-take : (n : ℕ) (rs : List A) → distinct rs ≡ true → distinct (take n rs) ≡ true
  distinct-take zero rs h = refl
  distinct-take (suc n) [] h = refl
  distinct-take (suc n) (r ∷ rs) h =
      ground (arith, any-take (λ x. str_eq (id r) (id x)) n rs, distinct-take n rs)

  pub set_all-page :
      (size page : ℕ) (rows : List A)
      → distinct rows ≡ true
      → set_all (take size (drop (page * size) rows)) (entries (take (page * size) rows))
        ≡ entries (take ((page + 1) * size) rows)
  set_all-page size page rows h =
      let joined : take (page * size) rows ++ take size (drop (page * size) rows)
          ≡ take ((page + 1) * size) rows =
        take-add (page * size) size rows ∙ ap (λ n. take n rows) (ground arith) in
      set_all-entries _ (take (page * size) rows)
        (ap distinct joined ∙ distinct-take ((page + 1) * size) rows h)
      ∙ ap entries joined

  pub length-entries-take :
      (n : ℕ) (rows : List A) → length (entries (take n rows)) ≡ min n (length rows)
  length-entries-take n rows = length-entries (take n rows) ∙ length-take n rows
