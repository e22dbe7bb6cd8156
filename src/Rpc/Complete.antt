-- ===== src/Rpc/Complete.antt =====
-- Every call of `TcpClient` in hRpc/client.go is completed once.
use happy.Base.{
  ℕ, suc, ◌+◌, ◌≤◌, ◌<◌, ◌≡◌, refl, sym, ap, subst, true, false, ◌||◌, Option, none, some, List, [],
  ◌∷◌, ◌==◌, nat_eq, if◌then◌else◌, contains, arith, inl, inr, Bool-cases, Option-cases,
}
use happy.Base.Maps.{
  Map, lookup, insert, delete, IsMap, IsMap-insert, IsMap-delete, lookup-insert, lookup-delete,
  contains-keys,
}
use happy.Rpc.{
  Client, new_client, register, settle, written, receive, fail_all, terminate, close, Step, sends,
  writes, receives, stops, closes, Steps, start, snoc,
}

abbrev pub count : List ℕ → ℕ → ℕ
count [] i = 0
count (x ∷ xs) i = if x == i then suc (count xs i) else count xs i

abbrev calls : Map ℕ ℕ → List ℕ
calls [] = []
calls ((s, call) ∷ m) = call ∷ calls m

abbrev pub finished : {E : Type 0} → List (ℕ × Option E) → List ℕ
finished [] = []
finished ((call, err) ∷ cs) = call ∷ finished cs

abbrev one_of : Option ℕ → ℕ → ℕ
one_of none i = 0
one_of (some call) i = if call == i then 1 else 0

count-delete :
    (m : Map ℕ ℕ) (s i : ℕ)
    → IsMap m
    → count (calls (delete m s)) i + one_of (lookup m s) i ≡ count (calls m) i
unfolding delete lookup
count-delete [] s i d = omega arith
count-delete ((k, call) ∷ m) s i d =
    ground (arith, count-delete m s i d.1, contains-keys m k, nat_eq.beq_iff k s, d.0)

count-insert :
    (m : Map ℕ ℕ) (s call i : ℕ)
    → lookup m s ≡ none
    → count (calls (insert m s call)) i ≡ one_of (some call) i + count (calls m) i
unfolding insert lookup
count-insert [] s call i h = ground arith
count-insert ((k, c) ∷ m) s call i h = ground (arith, count-insert m s call i, h)

count-fail_all :
    {E : Type 0} (ps : Map ℕ ℕ) (err : Option E) (cs : List (ℕ × Option E)) (i : ℕ)
    → count (finished (fail_all ps err cs)) i ≡ count (calls ps) i + count (finished cs) i
unfolding fail_all
count-fail_all [] err cs i = omega arith
count-fail_all ((s, call) ∷ ps) err cs i =
    ground (arith, count-fail_all ps err ((call, err) ∷ cs) i)

module _ {E : Type 0} where
  abbrev pub times : Client E → ℕ → ℕ
  times c i = count (finished c.completed) i

  -- Once while the connection is up a call is pending or completed, never both; once it is down it is completed.
  record IsClient (c : Client E) : Type 0 where
    pending_map : IsMap c.pending
    fresh : (s call : ℕ) → lookup c.pending s ≡ some call → s < c.seq
    sender : (s : ℕ) → c.sending ≡ some s → c.shutdown ≡ false
    up :
        c.shutdown ≡ false
        → (i : ℕ) → times c i + count (calls c.pending) i ≡ (if contains c.issued i then 1 else 0)
    down : c.shutdown ≡ true → (i : ℕ) → times c i ≡ (if contains c.issued i then 1 else 0)

  settle-none :
      (s : ℕ) (err : Option E) (c : Client E)
      → lookup c.pending s ≡ none
      → settle s err c ≡ record c { pending = delete c.pending s }
  unfolding settle
  settle-none s err c h =
      ap
        (λ (o : Option ℕ). elim o as (λ x. Client E) [
          | none ↦ record c { pending = delete c.pending s }
          | some call ↦ record c {
            pending = delete c.pending s;
            completed = (call, err) ∷ c.completed;
          }
        ])
        h

  settle-some :
      (s call : ℕ) (err : Option E) (c : Client E)
      → lookup c.pending s ≡ some call
      → settle s err c
        ≡ record c { pending = delete c.pending s; completed = (call, err) ∷ c.completed }
  unfolding settle
  settle-some s call err c h =
      ap
        (λ (o : Option ℕ). elim o as (λ x. Client E) [
          | none ↦ record c { pending = delete c.pending s }
          | some call ↦ record c {
            pending = delete c.pending s;
            completed = (call, err) ∷ c.completed;
          }
        ])
        h

  settle-IsClient :
      (s : ℕ) (err : Option E) (c : Client E)
      → c.shutdown ≡ false
      → IsClient c
      → IsClient (settle s err c)
  settle-IsClient s err c on v = elim (Option-cases (lookup c.pending s)) [
    | inl gone ↦ subst IsClient (sym (settle-none s err c gone)) (record {
      pending_map = IsMap-delete c.pending s v.pending_map;
      fresh = λ t call e. ground (arith, v.fresh t call, lookup-delete c.pending s t, e);
      sender = v.sender;
      up = λ h i. ground (arith, v.up h i, count-delete c.pending s i v.pending_map, gone);
      down = v.down;
    })
    | inr (call, there) ↦ subst IsClient (sym (settle-some s call err c there)) (record {
      pending_map = IsMap-delete c.pending s v.pending_map;
      fresh = λ t k e. ground (arith, v.fresh t k, lookup-delete c.pending s t, e);
      sender = v.sender;
      up = λ h i. ground (arith, v.up h i, count-delete c.pending s i v.pending_map, there);
      down = λ h. absurd cc;
    })
  ]

  idle-IsClient : (c : Client E) → IsClient c → IsClient (record c { sending = none })
  idle-IsClient c v = record {
    pending_map = v.pending_map;
    fresh = v.fresh;
    sender = λ s h. absurd cc;
    up = v.up;
    down = v.down;
  }

  written-IsClient :
      (s : ℕ) (err : Option E) (c : Client E)
      → c.shutdown ≡ false
      → IsClient c
      → IsClient (written s err c)
  unfolding written
  written-IsClient s none c on v = idle-IsClient c v
  written-IsClient s (some err) c on v =
      idle-IsClient (settle s (some err) c) (settle-IsClient s (some err) c on v)

  fresh_seq : (c : Client E) → IsClient c → lookup c.pending c.seq ≡ none
  fresh_seq c v = elim (Option-cases (lookup c.pending c.seq)) [
    | inl e ↦ e
    | inr (k, e) ↦ absurd (omega (arith, v.fresh c.seq k e))
  ]

  refused-IsClient :
      (call : ℕ) (err : E) (c : Client E)
      → contains c.issued call ≡ false
      → IsClient c
      → IsClient (record c { issued = call ∷ c.issued; completed = (call, some err) ∷ c.completed })
  refused-IsClient call err c new v = record {
    pending_map = v.pending_map;
    fresh = v.fresh;
    sender = v.sender;
    up = λ h i. ground (arith, v.up h i, new, nat_eq.beq_iff call i);
    down = λ h i. ground (arith, v.down h i, new, nat_eq.beq_iff call i);
  }

  register-IsClient :
      (call : ℕ) (refused : E) (c : Client E)
      → contains c.issued call ≡ false
      → IsClient c
      → IsClient (register call refused c)
  unfolding register
  register-IsClient call refused c new v = elim (Bool-cases (c.shutdown || c.closing)) [
    | inl closed ↦ rw closed (refused-IsClient call refused c new v)
    | inr opened ↦
        let on : c.shutdown ≡ false = ground (arith, opened) in
        let empty = fresh_seq c v in
        rw opened (record {
          pending_map = IsMap-insert c.pending c.seq call v.pending_map;
          fresh = λ t k e. ground (arith, v.fresh t k, lookup-insert c.pending c.seq t call, e);
          sender = λ s h. on;
          up = λ h i. ground (
            arith,
            v.up h i,
            count-insert c.pending c.seq call i empty,
            new,
            nat_eq.beq_iff call i,
          );
          down = λ h. absurd cc;
        })
  ]

  terminate-IsClient :
      (err : Option E) (c : Client E)
      → c.sending ≡ none
      → c.shutdown ≡ false
      → IsClient c
      → IsClient (terminate err c)
  unfolding terminate
  terminate-IsClient err c idle on v = record {
    pending_map = v.pending_map;
    fresh = v.fresh;
    sender = λ s h. absurd cc;
    up = λ h. absurd cc;
    down = λ h i. omega (arith, v.up on i, count-fail_all c.pending err c.completed i);
  }

  Step-IsClient : {c d : Client E} → Step c d → IsClient c → IsClient d
  unfolding receive close
  Step-IsClient {c} (sends call refused idle new) v = register-IsClient call refused c new v
  Step-IsClient {c} (writes s err busy) v = written-IsClient s err c (v.sender s busy) v
  Step-IsClient {c} (receives s err on) v = settle-IsClient s err c on v
  Step-IsClient {c} (stops err idle on) v = terminate-IsClient err c idle on v
  Step-IsClient {c} closes v = record {
    pending_map = v.pending_map;
    fresh = v.fresh;
    sender = v.sender;
    up = v.up;
    down = v.down;
  }

  new_client-IsClient : IsClient (new_client {E = E})
  unfolding lookup
  new_client-IsClient = record {
    pending_map = tt;
    fresh = λ s call e. absurd cc;
    sender = λ s h. refl;
    up = λ h i. refl;
    down = λ h. absurd cc;
  }

  Steps-IsClient : {c d : Client E} → Steps c d → IsClient c → IsClient d
  Steps-IsClient start v = v
  Steps-IsClient (snoc ss s) v = Step-IsClient s (Steps-IsClient ss v)

  -- In whatever order a new client's calls are sent, refused and answered and the connection fails, no call is
  -- completed twice, and none that was not issued.
  pub Steps-once :
      (c : Client E) (i : ℕ)
      → Steps new_client c
      → times c i ≤ (if contains c.issued i then 1 else 0)
  Steps-once c i ss =
      let v = Steps-IsClient ss new_client-IsClient in
      elim (Bool-cases c.shutdown) [
        | inl down ↦ omega (arith, v.down down i)
        | inr up ↦ omega (arith, v.up up i)
      ]

  -- Once the reader of a new client has stopped, every call that was issued is completed, exactly once: also
  -- those that had no answer, and those that come after.
  pub Steps-complete :
      (c : Client E) (i : ℕ)
      → Steps new_client c
      → c.shutdown ≡ true
      → contains c.issued i ≡ true
      → times c i ≡ 1
  Steps-complete c i ss down asked =
      let v = Steps-IsClient ss new_client-IsClient in ground (arith, v.down down i, asked)
