-- ===== src/Cluster/Types.antt =====
-- The records of hCluster/MasterService.go. `F` stands for float64, `D` for the custom data (any value).
use happy.Base.{ℕ, String, Bool, List}
use happy.Base.Maps.{Map}

pub record NodeInfo (F D : Type 0) : Type 0 where
  pub time : ℕ
  pub address : String
  pub role : List String
  pub app_name : String
  pub info : Map String F
  pub custom_data : Map String D

pub record InquiryReply (F D : Type 0) : Type 0 where
  pub node : String
  pub info : Map String F
  pub custom_data : Map String D

-- float64, as far as the load of a node needs it: `load c m` is `c*0.8 + m*0.2`, `le` is `<=` on numbers
-- that are not NaN.
pub record Floats : Type 1 where
  pub Float : Type 0
  pub one : Float
  pub load : Float → Float → Float
  pub le : Float → Float → Bool
