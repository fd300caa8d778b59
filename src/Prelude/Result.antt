-- ===== src/Prelude/Result.antt =====
-- `Result<T, E>` of the source, with the early return of `?` as bind.
use mathlib.Core.Path.{◌≡◌, refl, ap, subst}
use Prim.Native.Nat.{suc}
use snip_36_prover_web.Prelude.Lists.{length}
use mathlib.Core.Logic.{◌⊎◌, inl, inr}
use mathlib.Core.Option.{Option, none, some}
use mathlib.Core.List.{List, [], ◌∷◌}

pub data Result {ℓ κ} (E : Type ℓ) (A : Type κ) : Type (ℓ ⊔ κ) where
  ok : A → Result E A
  err : E → Result E A

abbrev pub map_err {ℓ κ μ} :
    {E : Type ℓ} {F : Type κ} {A : Type μ} → (E → F) → Result E A → Result F A
map_err f (ok value) = ok value
map_err f (err failure) = err (f failure)

infixl 5 ◌>>=◌
abbrev pub ◌>>=◌ {ℓ κ μ} :
    {E : Type ℓ} {A : Type κ} {B : Type μ} → Result E A → (A → Result E B) → Result E B
ok value >>= next = next value
err failure >>= next = err failure

infixl 5 ◌>>◌
abbrev pub ◌>>◌ {ℓ κ} : {E : Type ℓ} {B : Type κ} → Result E (Unit {0}) → Result E B → Result E B
first >> second = first >>= λ done. second

-- `Option::ok_or`
abbrev pub ok_or {ℓ κ} : {E : Type ℓ} {A : Type κ} → Option A → E → Result E A
ok_or none e = err e
ok_or (some a) e = ok a

abbrev pub unwrap_or {ℓ} : {A : Type ℓ} → Option A → A → A
unwrap_or none d = d
unwrap_or (some a) d = a

-- `iter().map(f).collect::<Result<Vec<_>, _>>()`: the first error, or all the values.
unfoldable pub collect {ℓ κ μ} :
    {E : Type ℓ} {A : Type κ} {B : Type μ} → (A → Result E B) → List A → Result E (List B)
collect f [] = ok []
collect f (x ∷ xs) = do y ← f x; ys ← collect f xs; ok (y ∷ ys)

pub ok_injective {ℓ κ} :
    {E : Type ℓ} {A : Type κ} {a b : A} → ◌≡◌ {A = Result E A} (ok a) (ok b) → a ≡ b
ok_injective e = cc

-- Inversion of a successful bind.
pub >>=-eq-ok {ℓ κ μ} :
    {E : Type ℓ} {A : Type κ} {B : Type μ} (r : Result E A) (next : A → Result E B) {b : B}
    → (r >>= next) ≡ ok b
    → (value : A) × (r ≡ ok value) × (next value ≡ ok b)
>>=-eq-ok (ok value) next same = (value, refl, same)
>>=-eq-ok (err failure) next same = cc

-- The same, for a goal that needs what the parts returned.
pub >>=-parts {ℓ κ μ ν} :
    {E : Type ℓ} {A : Type κ} {B : Type μ} {C : Type ν} (m : Result E A) (f : A → Result E B)
    {b : B}
    → (m >>= f) ≡ ok b
    → ((a : A) → m ≡ ok a → f a ≡ ok b → C)
    → C
>>=-parts (ok a) f h k = k a refl h
>>=-parts (err e) f h k = absurd cc

-- To split on a computed result and keep the equation.
pub Result-cases {ℓ κ} :
    {E : Type ℓ} {A : Type κ} (r : Result E A) → ((a : A) × (r ≡ ok a)) ⊎ ((e : E) × (r ≡ err e))
Result-cases (ok a) = inl (a, refl)
Result-cases (err e) = inr (e, refl)

pub map_err-ok {ℓ κ μ} :
    {E : Type ℓ} {G : Type κ} {A : Type μ} (f : E → G) (r : Result E A) (a : A)
    → map_err f r ≡ ok a
    → r ≡ ok a
map_err-ok f (ok b) a e = let same : b ≡ a = cc in ap ok same
map_err-ok f (err x) a e = absurd cc

pub ok_or-ok {ℓ κ} :
    {E : Type ℓ} {A : Type κ} (o : Option A) (e : E) (a : A) → ok_or o e ≡ ok a → o ≡ some a
ok_or-ok none e a h = absurd cc
ok_or-ok (some x) e a h = ap some (ok_injective h)

-- The results of the elements, in their order.
abbrev pub AllOk {κ} :
    {E : Type 0} {A : Type κ} {B : Type 0} → (A → Result E B) → List A → List B → Type 0
AllOk f [] [] = Unit
AllOk f (x ∷ xs) (y ∷ ys) = (f x ≡ ok y) × AllOk f xs ys
AllOk f _ _ = ⊥

pub collect-AllOk {κ} :
    {E : Type 0} {A : Type κ} {B : Type 0} (f : A → Result E B) (xs : List A) (ys : List B)
    → collect f xs ≡ ok ys
    → AllOk f xs ys
unfolding collect
collect-AllOk f [] [] h = tt
collect-AllOk f [] (y ∷ ys) h = absurd cc
collect-AllOk f (x ∷ xs) ys h = >>=-parts (f x) _ h λ z e h1.
    >>=-parts (collect f xs) _ h1
      λ zs es h2. subst (AllOk f (x ∷ xs)) (ok_injective h2) (e, collect-AllOk f xs zs es)

pub AllOk-length {κ} :
    {E : Type 0} {A : Type κ} {B : Type 0} (f : A → Result E B) (xs : List A) (ys : List B)
    → AllOk f xs ys
    → length ys ≡ length xs
AllOk-length f [] [] h = refl
AllOk-length f [] (y ∷ ys) h = absurd h
AllOk-length f (x ∷ xs) [] h = absurd h
AllOk-length f (x ∷ xs) (y ∷ ys) h = ap suc (AllOk-length f xs ys h.1)
