-- ===== src/Cluster/Balancer.antt =====
-- github.com/lafikl/liblb: the balancers r2, p2c and bounded, a parameter. The package variables r2LB, p2cLB
-- and boundedLB of hCluster/Selector.go are the three pools.
use happy.Base.{
  String, ◌≡◌, refl, ◌∙◌, Bool, not, ◌&&◌, ◌||◌, Option, ◌==◌, string_eq, Bool-cases, inl, inr,
  arith, if◌then◌else◌,
}

-- `balance` takes the key (r2 takes none) and returns a host, or nothing where the library has an error.
pub record Balancer : Type 1 where
  pub Pool : Type 0
  pub add : Pool → String → Pool
  pub remove : Pool → String → Pool
  pub balance : Pool → String → Pool × Option String
  pub done : Pool → String → Pool
  pub has_host : Pool → String → Bool
  pub has_host-add : (p : Pool) (a b : String) → has_host (add p a) b ≡ (a == b || has_host p b)
  pub has_host-remove :
      (p : Pool) (a b : String) → has_host (remove p a) b ≡ (not (a == b) && has_host p b)
  pub has_host-balance : (p : Pool) (key a : String) → has_host (balance p key).0 a ≡ has_host p a
  pub has_host-done : (p : Pool) (key a : String) → has_host (done p key) a ≡ has_host p a

pub record Balancers : Type 1 where
  pub r2 : Balancer
  pub p2c : Balancer
  pub bounded : Balancer

pub record Pools (lib : Balancers) : Type 0 where
  pub r2 : lib.r2.Pool
  pub p2c : lib.p2c.Pool
  pub bounded : lib.bounded.Pool

module _ (lib : Balancers) where
  -- The three calls that follow a node's arrival, and its end.
  unfoldable pub add_host : Pools lib → String → Pools lib
  add_host p addr = record {
    r2 = lib.r2.add p.r2 addr;
    p2c = lib.p2c.add p.p2c addr;
    bounded = lib.bounded.add p.bounded addr;
  }

  unfoldable pub remove_host : Pools lib → String → Pools lib
  remove_host p addr = record {
    r2 = lib.r2.remove p.r2 addr;
    p2c = lib.p2c.remove p.p2c addr;
    bounded = lib.bounded.remove p.bounded addr;
  }

  -- The three balancers have exactly the hosts that `f` says.
  pub record Serves (p : Pools lib) (f : String → Bool) : Type 0 where
    pub r2 : (a : String) → lib.r2.has_host p.r2 a ≡ f a
    pub p2c : (a : String) → lib.p2c.has_host p.p2c a ≡ f a
    pub bounded : (a : String) → lib.bounded.has_host p.bounded a ≡ f a

  pub add_host-Serves :
      (p : Pools lib) (f : String → Bool) (addr : String)
      → Serves p f
      → Serves (add_host p addr) (λ a. addr == a || f a)
  unfolding add_host
  add_host-Serves p f addr v = record {
    r2 = λ a. rw (lib.r2.has_host-add p.r2 addr a, v.r2 a) refl;
    p2c = λ a. rw (lib.p2c.has_host-add p.p2c addr a, v.p2c a) refl;
    bounded = λ a. rw (lib.bounded.has_host-add p.bounded addr a, v.bounded a) refl;
  }

  pub remove_host-Serves :
      (p : Pools lib) (f : String → Bool) (addr : String)
      → Serves p f
      → Serves (remove_host p addr) (λ a. not (addr == a) && f a)
  unfolding remove_host
  remove_host-Serves p f addr v = record {
    r2 = λ a. rw (lib.r2.has_host-remove p.r2 addr a, v.r2 a) refl;
    p2c = λ a. rw (lib.p2c.has_host-remove p.p2c addr a, v.p2c a) refl;
    bounded = λ a. rw (lib.bounded.has_host-remove p.bounded addr a, v.bounded a) refl;
  }

  pub Serves-eq :
      (p : Pools lib) (f g : String → Bool) → ((a : String) → f a ≡ g a) → Serves p f → Serves p g
  Serves-eq p f g h v = record {
    r2 = λ a. v.r2 a ∙ h a;
    p2c = λ a. v.p2c a ∙ h a;
    bounded = λ a. v.bounded a ∙ h a;
  }

  -- A node that the pools may have already is added or removed only as needed.
  pub join-Serves :
      (p : Pools lib) (f : String → Bool) (addr : String)
      → Serves p f
      → Serves (if f addr then p else add_host p addr) (λ a. addr == a || f a)
  join-Serves p f addr v = elim (Bool-cases (f addr)) [
    | inl known ↦ rw known (
        Serves-eq p f (λ a. addr == a || f a) (λ a. ground (arith, known, string_eq.beq_iff addr a))
          v)
    | inr fresh ↦ rw fresh (add_host-Serves p f addr v)
  ]

  pub leave-Serves :
      (p : Pools lib) (f : String → Bool) (addr : String)
      → Serves p f
      → Serves (if f addr then remove_host p addr else p) (λ a. not (addr == a) && f a)
  leave-Serves p f addr v = elim (Bool-cases (f addr)) [
    | inl known ↦ rw known (remove_host-Serves p f addr v)
    | inr fresh ↦ rw fresh (
        Serves-eq p f (λ a. not (addr == a) && f a)
          (λ a. ground (arith, fresh, string_eq.beq_iff addr a)) v)
  ]
