-- ===== src/Agreement/Wire.antt =====
-- A serializer for five messages, which loading undoes, and frames that carry them.
use rpc_freethread.Prelude.{
  ℕ, Bool, true, false, ◌&&◌, ◌≡◌, ap, List, [], ◌∷◌, arith, str_eq, eq_iff, if◌then◌else◌, refl,
}
use rpc_freethread.Errors.{Result, ok, err, serialization_error}
use rpc_freethread.Value.{
  Value, Items, Fields, nothing, boolean, text, tuple, sequence, cons, nil, mapping, field, end,
}
use rpc_freethread.Serializer.{Serializer}

-- The equality of messages, false on the kinds of values that these messages have not.
mutual
  same : Value → Value → Bool
  same nothing nothing = true
  same (boolean true) (boolean true) = true
  same (text a) (text b) = str_eq a b
  same (tuple xs) (tuple ys) = same_items xs ys
  same (sequence xs) (sequence ys) = same_items xs ys
  same (mapping fs) (mapping gs) = same_fields fs gs
  same _ _ = false

  same_items : Items → Items → Bool
  same_items nil nil = true
  same_items (cons x xs) (cons y ys) = same x y && same_items xs ys
  same_items _ _ = false

  same_fields : Fields → Fields → Bool
  same_fields end end = true
  same_fields (field k v fs) (field l w gs) = str_eq k l && (same v w && same_fields fs gs)
  same_fields _ _ = false

both_true : (a b : Bool) → (a && b) ≡ true → (a ≡ true) × (b ≡ true)
both_true a b h = ground arith

mutual
  unfolding same same_items same_fields

  same-eq : (v w : Value) → same v w ≡ true → v ≡ w
  same-eq nothing nothing h = cc
  same-eq (boolean true) (boolean true) h = cc
  same-eq (text a) (text b) h = ground (arith, eq_iff a b)
  same-eq (tuple xs) (tuple ys) h = ap (λ zs. tuple zs) (same_items-eq xs ys h)
  same-eq (sequence xs) (sequence ys) h = ap (λ zs. sequence zs) (same_items-eq xs ys h)
  same-eq (mapping fs) (mapping gs) h = ap (λ hs. mapping hs) (same_fields-eq fs gs h)
  same-eq _ _ h = cc

  same_items-eq : (xs ys : Items) → same_items xs ys ≡ true → xs ≡ ys
  same_items-eq nil nil h = cc
  same_items-eq (cons x xs) (cons y ys) h =
      let (a, b) = both_true (same x y) (same_items xs ys) h in
      rw (same-eq x y a, same_items-eq xs ys b) cc
  same_items-eq _ _ h = cc

  same_fields-eq : (fs gs : Fields) → same_fields fs gs ≡ true → fs ≡ gs
  same_fields-eq end end h = cc
  same_fields-eq (field k v fs) (field l w gs) h =
      let (a, bc) = both_true (str_eq k l) (same v w && same_fields fs gs) h in
      let (b, c) = both_true (same v w) (same_fields fs gs) bc in
      let e = same-eq v w b in let f = same_fields-eq fs gs c in ground (arith, eq_iff k l)
  same_fields-eq _ _ h = cc

abbrev destroy_message : Value
destroy_message = mapping (
    field "type" (text "destroy_actor")
      (field "actor_id" (text "a") (field "call_id" (text "c1") end)))

abbrev answer_message : Value
answer_message = mapping (
    field "type" (text "result")
      (field "call_id" (text "c1") (field "ok" (boolean true) (field "result" nothing end))))

abbrev names_message : Value
names_message = mapping (
    field "type" (text "catalog") (
      field "functions" (tuple (cons (text "add") nil))
        (field "actors" (tuple (cons (text "Counter") nil)) end)))

abbrev call_message : Value
call_message = mapping (
    field "type" (text "call") (
      field "function" (text "add") (
        field "args" (sequence nil)
          (field "kwargs" (mapping end) (field "call_id" (text "c1") end)))))

abbrev method_message : Value
method_message = mapping (
    field "type" (text "call_actor") (
      field "actor_id" (text "a") (
        field "method" (text "add") (
          field "args" (sequence nil)
            (field "kwargs" (mapping end) (field "call_id" (text "c1") end))))))

unfoldable pub encode : Value → Result (List ℕ)
unfolding same
encode v =
    if same v answer_message
    then ok (2 ∷ [])
    else if same v destroy_message
    then ok (1 ∷ 1 ∷ [])
    else if same v names_message
    then ok (3 ∷ 3 ∷ 3 ∷ [])
    else if same v call_message
    then ok (4 ∷ 4 ∷ 4 ∷ 4 ∷ [])
    else if same v method_message
    then ok (5 ∷ 5 ∷ 5 ∷ 5 ∷ 5 ∷ [])
    else err (serialization_error "")

abbrev decode : List ℕ → Result Value
decode (_ ∷ []) = ok answer_message
decode (_ ∷ _ ∷ []) = ok destroy_message
decode (_ ∷ _ ∷ _ ∷ []) = ok names_message
decode (_ ∷ _ ∷ _ ∷ _ ∷ []) = ok call_message
decode (_ ∷ _ ∷ _ ∷ _ ∷ _ ∷ []) = ok method_message
decode _ = err (serialization_error "")

abbrev pub wire : Serializer
wire = record { dumps = encode; loads = decode }

stored :
    (b : Bool) (v m : Value) (p q : List ℕ) (rest : Result (List ℕ))
    → (b ≡ true → v ≡ m)
    → decode p ≡ ok m
    → (rest ≡ ok q → decode q ≡ ok v)
    → (if b then ok p else rest) ≡ ok q
    → decode q ≡ ok v
stored true v m p q rest h k g e = ground arith
stored false v m p q rest h k g e = g e

pub decode-encode : (v : Value) (p : List ℕ) → wire.dumps v ≡ ok p → wire.loads p ≡ ok v
unfolding encode
decode-encode v p e =
    stored (same v answer_message) v answer_message (2 ∷ []) p _ (same-eq v answer_message) refl
      (stored (same v destroy_message) v destroy_message (1 ∷ 1 ∷ []) p _
        (same-eq v destroy_message) refl
        (stored (same v names_message) v names_message (3 ∷ 3 ∷ 3 ∷ []) p _
          (same-eq v names_message) refl
          (stored (same v call_message) v call_message (4 ∷ 4 ∷ 4 ∷ 4 ∷ []) p _
            (same-eq v call_message) refl
            (stored (same v method_message) v method_message (5 ∷ 5 ∷ 5 ∷ 5 ∷ 5 ∷ []) p _
              (same-eq v method_message) refl (λ h. cc)))))
      e
