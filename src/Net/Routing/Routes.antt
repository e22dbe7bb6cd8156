-- ===== src/Net/Routing/Routes.antt =====
-- The tables of hNet/baseApi.go after any registrations.
use happy.Base.{
  ℕ, ◌≡◌, refl, sym, ap, ◌∙◌, subst, Bool, true, false, Option, none, some, List, [], ◌∷◌,
  Bool-cases, inl, inr, nat_eq, ◌==◌, ==→≡, if◌then◌else◌, arith,
}
use happy.Base.Maps.{lookup, insert, lookup-insert}
use happy.Net.Routing.{
  MethodType, Tables, Handler, Method, Error, new_tables, set_id, set_mt2id, route_at, route_to,
  add_route, or_stop, register_with, register, register_method, register_round, register_each,
  register_group,
}

-- A number leads to the handler of a type with that number.
abbrev pub IsRouted : Tables → Type 0
IsRouted t =
    (id : ℕ) (mt : MethodType) → lookup t.route id ≡ some mt → lookup t.mt2id mt.args_type ≡ some id

set_id-keeps :
    (o : Option ℕ) (a b : ℕ) (t : Tables) (typ id : ℕ)
    → lookup t.mt2id a ≡ o
    → lookup t.mt2id typ ≡ some id
    → lookup (set_id o a b t).mt2id typ ≡ some id
set_id-keeps (some v) a b t typ id e h = h
set_id-keeps none a b t typ id e h =
    ground (arith, e, h, lookup-insert t.mt2id a typ b, nat_eq.beq_iff a typ)

set_id-route : (o : Option ℕ) (a b : ℕ) (t : Tables) → (set_id o a b t).route ≡ t.route
set_id-route none a b t = refl
set_id-route (some v) a b t = refl

set_mt2id-IsRouted : (ps : List (ℕ × ℕ)) (t : Tables) → IsRouted t → IsRouted (set_mt2id ps t)
unfolding set_mt2id
set_mt2id-IsRouted [] t h = h
set_mt2id-IsRouted ((a, b) ∷ ps) t h =
    set_mt2id-IsRouted ps (set_id (lookup t.mt2id a) a b t) (λ id mt e.
      set_id-keeps (lookup t.mt2id a) a b t mt.args_type id refl
        (h id mt (sym (ap (λ m. lookup m id) (set_id-route (lookup t.mt2id a) a b t)) ∙ e)))

inserted-IsRouted :
    (mt : MethodType) (t : Tables) (index : ℕ)
    → lookup t.mt2id mt.args_type ≡ some index
    → IsRouted t
    → IsRouted (record t { route = insert t.route index mt })
inserted-IsRouted mt t index e h id m q = elim (Bool-cases (index == id)) [
  | inl same ↦
      let new : some mt ≡ some m = ground (arith, q, same, lookup-insert t.route index id mt) in
      let there : mt ≡ m = cc in
      subst (λ (k : MethodType). lookup t.mt2id k.args_type ≡ some id) there
        (e ∙ ap some (==→≡ index id same))
  | inr other ↦ h id m (ground (arith, q, other, lookup-insert t.route index id mt))
]

route_to-IsRouted :
    (o : Option ℕ) (mt : MethodType) (t : Tables)
    → lookup t.mt2id mt.args_type ≡ o
    → IsRouted t
    → IsRouted (route_to o mt t).0
route_to-IsRouted none mt t e h = h
route_to-IsRouted (some index) mt t e h =
    elim (lookup t.route index) as (λ r. IsRouted (route_at r index mt t).0) [
      | none ↦ inserted-IsRouted mt t index e h
      | some old ↦ h
    ]

add_route-IsRouted : (mt : MethodType) (t : Tables) → IsRouted t → IsRouted (add_route mt t).0
unfolding add_route
add_route-IsRouted mt t h = route_to-IsRouted (lookup t.mt2id mt.args_type) mt t refl h

or_stop-IsRouted :
    (r s : Tables × Option Error) → IsRouted r.0 → IsRouted s.0 → IsRouted (or_stop r s).0
or_stop-IsRouted (t, none) s h k = k
or_stop-IsRouted (t, some e) s h k = h

module _ (st : ℕ) (exported : ℕ → Bool) where
  -- A result whose tables are routed, whatever the tests come to.
  if-IsRouted :
      (b : Bool) (r s : Tables × Option Error)
      → IsRouted r.0
      → IsRouted s.0
      → IsRouted (if b then r else s).0
  if-IsRouted true r s h k = h
  if-IsRouted false r s h k = k

  typed-IsRouted :
      (a args_type : ℕ) (mt : MethodType) (t : Tables)
      → IsRouted t
      → IsRouted
          (if a == st
            then if exported args_type then add_route mt t else (t, none)
            else (t, none)).0
  typed-IsRouted a args_type mt t h =
      if-IsRouted (a == st) (if exported args_type then add_route mt t else (t, none)) (t, none)
        (if-IsRouted (exported args_type) (add_route mt t) (t, none) (add_route-IsRouted mt t h) h)
        h

  register_with-IsRouted :
      (func : ℕ) (ps : List ℕ) (t : Tables)
      → IsRouted t
      → IsRouted (register_with st exported func ps t).0
  register_with-IsRouted func (a ∷ b ∷ []) t h =
      typed-IsRouted a b (record { has_resv = false; method = func; args_type = b }) t h
  register_with-IsRouted func [] t h = h
  register_with-IsRouted func (a ∷ []) t h = h
  register_with-IsRouted func (a ∷ b ∷ c ∷ ps) t h = h

  register-IsRouted :
      (is_init : Bool) (f : Handler) (t : Tables)
      → IsRouted t
      → IsRouted (register st exported is_init f t).0
  unfolding register
  register-IsRouted true f t h = register_with-IsRouted f.func f.params t h
  register-IsRouted false f t h = h

  register_method-IsRouted :
      (func : ℕ) (ps : List ℕ) (t : Tables)
      → IsRouted t
      → IsRouted (register_method st exported func ps t).0
  register_method-IsRouted func (r ∷ a ∷ b ∷ []) t h =
      typed-IsRouted a b (record { has_resv = true; method = func; args_type = b }) t h
  register_method-IsRouted func [] t h = h
  register_method-IsRouted func (a ∷ []) t h = h
  register_method-IsRouted func (a ∷ b ∷ []) t h = h
  register_method-IsRouted func (a ∷ b ∷ c ∷ d ∷ ps) t h = h

  register_round-IsRouted :
      (m : Method) (t : Tables) → IsRouted t → IsRouted (register_round st exported m t).0
  unfolding register_round
  register_round-IsRouted m t h =
      if-IsRouted m.is_exported (register_method st exported m.func m.params t) (t, none)
        (register_method-IsRouted m.func m.params t h) h

  register_each-IsRouted :
      (ms : List Method) (t : Tables) → IsRouted t → IsRouted (register_each st exported ms t).0
  unfolding register_each
  register_each-IsRouted [] t h = h
  register_each-IsRouted (m ∷ ms) t h =
      let here = register_round-IsRouted m t h in
      or_stop-IsRouted (register_round st exported m t)
        (register_each st exported ms (register_round st exported m t).0) here
        (register_each-IsRouted ms (register_round st exported m t).0 here)

  register_group-IsRouted :
      (is_init : Bool) (ms : List Method) (t : Tables)
      → IsRouted t
      → IsRouted (register_group st exported is_init ms t).0
  unfolding register_group
  register_group-IsRouted true ms t h = register_each-IsRouted ms t h
  register_group-IsRouted false ms t h = h

  -- The calls that change the tables, whether the API that gets them is initialised or not.
  pub data Change : Type 0 where
    sets : List (ℕ × ℕ) → Change
    registers : Bool → Handler → Change
    registers_group : Bool → List Method → Change

  abbrev pub apply : Change → Tables → Tables
  apply (sets ps) t = set_mt2id ps t
  apply (registers b f) t = (register st exported b f t).0
  apply (registers_group b ms) t = (register_group st exported b ms t).0

  abbrev pub apply_all : List Change → Tables → Tables
  apply_all [] t = t
  apply_all (c ∷ cs) t = apply_all cs (apply c t)

  apply-IsRouted : (c : Change) (t : Tables) → IsRouted t → IsRouted (apply c t)
  apply-IsRouted (sets ps) t h = set_mt2id-IsRouted ps t h
  apply-IsRouted (registers b f) t h = register-IsRouted b f t h
  apply-IsRouted (registers_group b ms) t h = register_group-IsRouted b ms t h

  apply_all-IsRouted_from : (cs : List Change) (t : Tables) → IsRouted t → IsRouted (apply_all cs t)
  apply_all-IsRouted_from [] t h = h
  apply_all-IsRouted_from (c ∷ cs) t h =
      apply_all-IsRouted_from cs (apply c t) (apply-IsRouted c t h)

  -- Whatever is registered, in whatever order and with whatever panics, a number leads to a handler of a type with that
  -- number.
  pub apply_all-IsRouted : (cs : List Change) → IsRouted (apply_all cs new_tables)
  unfolding new_tables lookup
  apply_all-IsRouted cs = apply_all-IsRouted_from cs new_tables (λ id mt e. absurd (cc))
