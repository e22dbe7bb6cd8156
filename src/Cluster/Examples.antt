-- ===== src/Cluster/Examples.antt =====
-- Concrete balancers and numbers for the tests of package hCluster.
pub mod Selecting
pub mod Mastering
pub mod Locating
mod Asking
mod Reporting
use happy.Base.{
  ℕ, ◌+◌, ◌*◌, ◌/◌, ◌≡◌, refl, String, Bool, true, false, not, ◌&&◌, ◌||◌, Option, none, some, List,
  [], ◌∷◌, contains, ◌==◌, string_eq, if◌then◌else◌, leb, arith, inl, inr, Bool-cases,
}
use happy.Cluster.Types.{NodeInfo, InquiryReply, Floats}
use happy.Cluster.Balancer.{Balancer, Balancers, Pools, Serves}

abbrev pub without : List String → String → List String
without [] a = []
without (x ∷ xs) a = let rest = without xs a in if x == a then rest else x ∷ rest

abbrev pub first : List String → Option String
first [] = none
first (x ∷ xs) = some x

pub contains-without :
    (xs : List String) (a b : String) → contains (without xs a) b ≡ (not (a == b) && contains xs b)
contains-without [] a b = ground arith
contains-without (x ∷ xs) a b = ground (
  arith,
  contains-without xs a b,
  string_eq.beq_iff x a,
  string_eq.beq_iff x b,
  string_eq.beq_iff a b,
)

-- A balancer that names the host that came last.
abbrev pub latest : Balancer
latest = record {
  Pool = List String;
  add = λ p a. a ∷ p;
  remove = without;
  balance = λ p key. (p, first p);
  done = λ p key. p;
  has_host = contains;
  has_host-add = λ p a b. refl;
  has_host-remove = contains-without;
  has_host-balance = λ p key a. refl;
  has_host-done = λ p key a. refl;
}

abbrev pub balancers : Balancers
balancers = record { r2 = latest; p2c = latest; bounded = latest }

abbrev pub no_hosts : Pools balancers
no_hosts = record { r2 = []; p2c = []; bounded = [] }

pub no_hosts-Serves : Serves balancers no_hosts (λ a. false)
no_hosts-Serves = record { r2 = λ a. refl; p2c = λ a. refl; bounded = λ a. refl }

-- Loads in hundredths.
abbrev pub percent : Floats
percent = record { Float = ℕ; one = 100; load = λ c m. (c * 8 + m * 2) / 10; le = leb }

abbrev pub node : String → String → List String → NodeInfo ℕ ℕ
node addr app role = record {
  time = 0;
  address = addr;
  role = role;
  app_name = app;
  info = [];
  custom_data = [];
}

abbrev pub reply : String → ℕ → ℕ → InquiryReply ℕ ℕ
reply name cpu mem = record {
  node = name;
  info = ("cpu", cpu) ∷ ("mem", mem) ∷ [];
  custom_data = [];
}
