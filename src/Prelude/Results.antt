-- ===== src/Prelude/Results.antt =====
-- Go's `(value, error)` pairs as values, with the errors that the modelled code can return.
-- `panic` is a run-time panic (a nil dereference, or an explicit one) and `stuck` is no Go outcome:
-- a recursion on fuel has used it up.
use mathlib.Core.Path.{◌≡◌, refl}

pub data Error : Type 0 where
  -- internal/encoding
  buffer_too_small eof_decoding length_out_of_range insufficient_bytes : Error
  -- node.go
  clone_leaf_node empty_child left_node_key_empty right_node_key_empty : Error
  nil_node invalid_height invalid_mode invalid_nonce : Error
  -- mutable_tree.go
  nil_value balance_on_persisted version_saved_differently : Error
  -- nodedb.go
  node_missing version_does_not_exist invalid_reference_root not_fast_storage : Error
  node_missing_node_key invalid_fast_storage_version : Error
  -- db
  key_empty value_nil batch_closed : Error

pub data Result {ℓ} (A : Type ℓ) : Type ℓ where
  panic stuck : Result A
  err : Error → Result A
  ok : A → Result A

-- What follows a failure is not run.
abbrev pub ◌>>=◌ {ℓ κ} : {A : Type ℓ} {B : Type κ} → Result A → (A → Result B) → Result B
stuck >>= next = stuck
panic >>= next = panic
err failure >>= next = err failure
ok value >>= next = next value

infixl 5 ◌>>=◌
-- A check whose value is dropped.
abbrev pub ◌>>◌ {ℓ} : {B : Type ℓ} → Result (Unit {0}) → Result B → Result B
check >> next = check >>= λ done. next

infixl 5 ◌>>◌
-- A sequence that returned has a first step that did, and so has the rest.
pub >>=-eq-ok {ℓ κ} :
    {A : Type ℓ} {B : Type κ} (first : Result A) (next : A → Result B) {b : B}
    → (first >>= next) ≡ ok b
    → (value : A) × (first ≡ ok value) × (next value ≡ ok b)
>>=-eq-ok stuck next returned = cc
>>=-eq-ok panic next returned = cc
>>=-eq-ok (err failure) next returned = cc
>>=-eq-ok (ok value) next returned = (value, refl, returned)

-- Two steps that succeed, with a third one behind them.
pub >>=-chain {ℓ κ μ} :
    {A : Type ℓ} {B : Type κ} {C : Type μ} (m : Result A) (f : A → Result B) (g : B → Result C)
    {b : B}
    → (m >>= f) ≡ ok b
    → (m >>= λ a. (f a >>= g)) ≡ g b
>>=-chain (ok a) f g h = rw h
>>=-chain (err e) f g h = cc
>>=-chain panic f g h = cc
>>=-chain stuck f g h = cc
