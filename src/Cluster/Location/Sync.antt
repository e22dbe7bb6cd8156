-- ===== src/Cluster/Location/Sync.antt =====
-- What a location knows after a sync: hCluster/LocationComponent.go.
use happy.Base.{
  ◌≡◌, refl, sym, ap, ◌∙◌, String, Bool, true, false, not, ◌&&◌, ◌||◌, Option, none, some, List, [],
  ◌∷◌, ◌==◌, string_eq, arith, inl, inr, Bool-cases, contains,
}
use happy.Base.Maps.{Map, lookup, insert, is_some, keys, contains-keys, lookup-insert}
use happy.Cluster.Types.{Floats}
use happy.Cluster.Balancer.{
  Balancers, Pools, Serves, Serves-eq, add_host, remove_host, add_host-Serves, remove_host-Serves,
}
use happy.Cluster.Master.{NodeInfoSyncReply}
use happy.Cluster.Location.{
  Location, open_all, close_missing, open_new, update_bl, merge, decode, current, sync, syncs,
}

module _ {A : Type 0} (lib : Balancers) where
  open_all-Serves :
      (es : Map String A) (p : Pools lib) (f : String → Bool)
      → Serves lib p f
      → Serves lib (open_all lib es p) (λ a. contains (keys es) a || f a)
  unfolding open_all
  open_all-Serves [] p f v = v
  open_all-Serves ((k, x) ∷ es) p f v =
      Serves-eq lib (open_all lib es (add_host lib p k))
        (λ a. contains (keys es) a || (k == a || f a)) (λ a. contains (keys ((k, x) ∷ es)) a || f a)
        (λ a. ground arith)
        (open_all-Serves es (add_host lib p k) (λ a. k == a || f a) (add_host-Serves lib p f k v))

  close_missing-Serves :
      (es next : Map String A) (p : Pools lib) (f : String → Bool)
      → Serves lib p f
      → Serves lib
          (close_missing lib es next p)
          (λ a. f a && not (contains (keys es) a && not (is_some (lookup next a))))
  unfolding close_missing
  close_missing-Serves [] next p f v = Serves-eq lib p f _ (λ a. ground arith) v
  close_missing-Serves ((k, x) ∷ es) next p f v = elim (Bool-cases (is_some (lookup next k))) [
    | inl kept ↦ rw kept (
        Serves-eq lib (close_missing lib es next p)
          (λ a. f a && not (contains (keys es) a && not (is_some (lookup next a)))) _
          (λ a. ground (arith, kept, string_eq.beq_iff k a)) (close_missing-Serves es next p f v))
    | inr gone ↦ rw gone (
        Serves-eq lib (close_missing lib es next (remove_host lib p k))
          (λ a.
            (not (k == a) && f a) && not (contains (keys es) a && not (is_some (lookup next a))))
          _ (λ a. ground (arith, gone, string_eq.beq_iff k a))
          (close_missing-Serves es next (remove_host lib p k) (λ a. not (k == a) && f a)
            (remove_host-Serves lib p f k v)))
  ]

  open_new-Serves :
      (es cur : Map String A) (p : Pools lib) (f : String → Bool)
      → Serves lib p f
      → Serves lib
          (open_new lib es cur p)
          (λ a. f a || contains (keys es) a && not (is_some (lookup cur a)))
  unfolding open_new
  open_new-Serves [] cur p f v = Serves-eq lib p f _ (λ a. ground arith) v
  open_new-Serves ((k, x) ∷ es) cur p f v = elim (Bool-cases (is_some (lookup cur k))) [
    | inl known ↦ rw known (
        Serves-eq lib (open_new lib es cur p)
          (λ a. f a || contains (keys es) a && not (is_some (lookup cur a))) _
          (λ a. ground (arith, known, string_eq.beq_iff k a)) (open_new-Serves es cur p f v))
    | inr fresh ↦ rw fresh (
        Serves-eq lib (open_new lib es cur (add_host lib p k))
          (λ a. (k == a || f a) || contains (keys es) a && not (is_some (lookup cur a))) _
          (λ a. ground (arith, fresh, string_eq.beq_iff k a))
          (open_new-Serves es cur (add_host lib p k) (λ a. k == a || f a)
            (add_host-Serves lib p f k v)))
  ]

  -- The hosts of the balancers before `UpdateBL` are the nodes it starts from.
  abbrev pub hosts_of : Option (Map String A) → String → Bool
  hosts_of none a = false
  hosts_of (some m) a = is_some (lookup m a)

  -- `UpdateBL` of two maps: if the balancers have exactly the nodes of the first as hosts (none, if it is nil),
  -- they then have exactly those of the second.
  pub update_bl-Serves :
      (cur : Option (Map String A)) (next : Map String A) (p : Pools lib)
      → Serves lib p (hosts_of cur)
      → Serves lib (update_bl lib cur next p) (λ a. is_some (lookup next a))
  unfolding update_bl
  update_bl-Serves none next p v =
      Serves-eq lib (open_all lib next p) (λ a. contains (keys next) a || false) _
        (λ a. ground (arith, contains-keys next a)) (open_all-Serves next p (λ a. false) v)
  update_bl-Serves (some cur) next p v =
      let closed = close_missing-Serves cur next p (λ a. is_some (lookup cur a)) v in
      let opened = open_new-Serves next cur (close_missing lib cur next p) _ closed in
      Serves-eq lib (open_new lib next cur (close_missing lib cur next p)) _
        (λ a. is_some (lookup next a))
        (λ a. ground (arith, contains-keys next a, contains-keys cur a)) opened

  close_missing_within :
      (es next : Map String A) (p : Pools lib)
      → ((a : String) → contains (keys es) a ≡ true → is_some (lookup next a) ≡ true)
      → close_missing lib es next p ≡ p
  unfolding close_missing
  close_missing_within [] next p h = refl
  close_missing_within ((k, x) ∷ es) next p h =
      rw (h k (ground (arith, string_eq.beq_iff k k)))
        (close_missing_within es next p (λ a c. h a (ground arith)))

  open_new_within :
      (es cur : Map String A) (p : Pools lib)
      → ((a : String) → contains (keys es) a ≡ true → is_some (lookup cur a) ≡ true)
      → open_new lib es cur p ≡ p
  unfolding open_new
  open_new_within [] cur p h = refl
  open_new_within ((k, x) ∷ es) cur p h =
      rw (h k (ground (arith, string_eq.beq_iff k k)))
        (open_new_within es cur p (λ a c. h a (ground arith)))

  update_bl_same : (m : Map String A) (p : Pools lib) → update_bl lib (some m) m p ≡ p
  unfolding update_bl
  update_bl_same m p =
      let own : (a : String) → contains (keys m) a ≡ true → is_some (lookup m a) ≡ true =
        λ a c. sym (contains-keys m a) ∙ c in
      rw (close_missing_within m m p own) (open_new_within m m p own)

lookup-merge_old :
    {A : Type 0} (old sent : Map String A) (a : String)
    → is_some (lookup old a) ≡ true
    → is_some (lookup (merge old sent) a) ≡ true
unfolding merge
lookup-merge_old old [] a h = h
lookup-merge_old old ((k, v) ∷ sent) a h =
    lookup-merge_old (insert old k v) sent a (ground (arith, lookup-insert old k a v, h))

module _ {num : Floats} {D : Type 0} {lib : Balancers} where
  open num use {Float}

  -- The names that a location knows.
  abbrev pub knows : Location num D lib → String → Bool
  knows l a = elim l.reply [ none ↦ false | some r ↦ is_some (lookup r.nodes a) ]

  -- The first sync that succeeds makes the balancers serve exactly the nodes that the master sent, if they had
  -- no host before, and the location know these nodes.
  pub sync-first :
      (sent : NodeInfoSyncReply num D) (connected : Bool) (pools : Pools lib)
      → Serves lib pools (λ a. false)
      → Serves lib
          (sync num lib
            (some sent)
            (record { reply = none; connected = connected; pools = pools })).pools
          (λ a. is_some (lookup sent.nodes a))
        × ((a : String)
            → knows
                (sync num lib
                  (some sent)
                  (record { reply = none; connected = connected; pools = pools }))
                a
              ≡ is_some (lookup sent.nodes a))
  unfolding sync decode current
  sync-first sent connected pools v = (update_bl-Serves lib none sent.nodes pools v, λ a. refl)

  sync-stale :
      (r : Option (NodeInfoSyncReply num D)) (l : Location num D lib)
      (old : NodeInfoSyncReply num D)
      → l.reply ≡ some old
      → (new : NodeInfoSyncReply num D) × ((sync num lib r l).reply ≡ some new)
        × ((sync num lib r l).pools ≡ l.pools)
        × ((a : String) → is_some (lookup old.nodes a) ≡ true → is_some (lookup new.nodes a) ≡ true)
  unfolding sync decode current
  sync-stale none l old h = (old, h, refl, λ a k. k)
  sync-stale (some sent) l old h = (
    decode num lib (some old) sent,
    ap (λ o. some (decode num lib o sent)) h,
    ap
          (λ o.
            update_bl lib (current num lib o (decode num lib o sent)) (decode num lib o sent).nodes
              l.pools)
          h
        ∙ update_bl_same lib (merge old.nodes sent.nodes) l.pools,
    λ a k. lookup-merge_old old.nodes sent.nodes a k,
  )

  knows_at :
      (l : Location num D lib) (r : NodeInfoSyncReply num D)
      → l.reply ≡ some r
      → (a : String) → knows l a ≡ is_some (lookup r.nodes a)
  knows_at l r h a =
      ap
        (λ (o : Option (NodeInfoSyncReply num D)). elim o as (λ x. Bool) [
          | none ↦ false
          | some s ↦ is_some (lookup s.nodes a)
        ])
        h

  -- The reply is decoded into the map of the one before, and the two maps that `UpdateBL` is to compare are the
  -- same. So after the first sync, whatever the master sends from then on, also once a node is closed there,
  -- a location drops no node that it knows, and the hosts of the balancers stay as they are.
  pub syncs-stale :
      (rs : List (Option (NodeInfoSyncReply num D))) (l : Location num D lib)
      (old : NodeInfoSyncReply num D)
      → l.reply ≡ some old
      → ((syncs num lib rs l).pools ≡ l.pools)
        × ((a : String) → knows l a ≡ true → knows (syncs num lib rs l) a ≡ true)
  unfolding syncs
  syncs-stale [] l old h = (refl, λ a k. k)
  syncs-stale (r ∷ rs) l old h =
      let (new, h', p, keep) = sync-stale r l old h in
      let (p', keep') = syncs-stale rs (sync num lib r l) new h' in
      (
        p' ∙ p,
        λ a k.
            keep' a (knows_at (sync num lib r l) new h' a ∙ keep a (sym (knows_at l old h a) ∙ k)),
      )
