-- ===== src/Kineto.antt =====
-- src/fused_index_topk/kineto.py: CUDA activities of a profile, by the ranges that launched them.
-- An event's ID is of any type with an equality, its times are of any type with the operations of
-- Clock. The fields are the attributes that the code reads; `device` is the part of the device
-- type's name behind the last dot.
pub mod Timing
pub mod Trials
pub mod Ids
pub mod Steps
pub mod Activities
pub mod Attributed
pub mod Attribution
pub mod Topology
use Prim.Native.String.{compare, ◌++◌}
use Prim.Native.Nat.{Ordering}
use fused_index_top_k.Base.{
  ℕ, zero, suc, ◌+◌, ◌%◌, String, Bool, true, false, not, ◌&&◌, ◌||◌, Option, none, some, List, [],
  ◌∷◌, map, ltb, leb, eqb, if◌then◌else◌, Eq, ◌==◌, string_eq, length, filterb, anyb, contains,
  insert_sorted, sorted, range, Result, ok, err, ◌>>=◌, ◌>>◌, raise_if, ◌≡◌, ◌↔◌, arith, Dict, get,
  put,
}
use fused_index_top_k.Config.Cases.{decimal}
use fused_index_top_k.Config.Read.{collect, list_eqb}
use fused_index_top_k.Graph.Validate.{codes}
use fused_index_top_k.Nvtx.{starts_with}

pub record Attributes (I T : Type 0) : Type 0 where
  pub name : String
  pub device : String
  pub id : Option I
  pub time_range : Option (T × T)

mutual
  -- The attributes of an event, and its `cpu_children`.
  pub data Event (I T : Type 0) : Type 0 where
    event : Attributes I T → Events I T → Event I T

  pub data Events (I T : Type 0) : Type 0 where
    no_events : Events I T
    child : Event I T → Events I T → Events I T

abbrev pub attributes : {I T : Type 0} → Event I T → Attributes I T
attributes (event a children) = a

abbrev pub cpu_children : {I T : Type 0} → Event I T → Events I T
cpu_children (event a children) = children

-- Times: equality, `<`, difference, sum, zero, and whether two sums differ by more than 1e-6.
pub record Clock (T : Type 0) : Type 0 where
  pub time_eq : Eq T
  pub before : T → T → Bool
  pub minus : T → T → T
  pub plus : T → T → T
  pub zero_time : T
  pub far_apart : T → T → Bool

pub data KinetoError : Type 0 where
  no_time_range negative_duration wrong_range_count no_launches no_activities : KinetoError
  no_trials empty_topology operator_changed stage_changed kernel_coverage activity_coverage :
      KinetoError
  kernel_timing activity_timing missing_stage : KinetoError

-- `f"{trial_id:04d}"`
abbrev pub decimal04 : ℕ → String
decimal04 n =
    if ltb n 10
    then "000" ++ decimal n
    else if ltb n 100
    then "00" ++ decimal n
    else if ltb n 1000
    then "0" ++ decimal n
    else decimal n

abbrev pub kineto_range_prefix : String
kineto_range_prefix = "ITK::KINETO::"

unfoldable pub operator_range_name : ℕ → ℕ → String
operator_range_name phase trial_id =
    "ITK::KINETO::OPERATOR::P" ++ decimal phase ++ "::T" ++ decimal04 trial_id

unfoldable pub stage_range_name : ℕ → ℕ → String → String
stage_range_name phase trial_id stage_id =
    "ITK::KINETO::STAGE::P" ++ decimal phase ++ "::T" ++ decimal04 trial_id ++ "::" ++ stage_id

abbrev pub cuda_runtime_activity_prefixes : List String
cuda_runtime_activity_prefixes =
    "cudaLaunch" ∷ "cuLaunch" ∷ "cudaGraphLaunch" ∷ "cuGraphLaunch" ∷ "cudaMemcpy" ∷ "cuMemcpy"
    ∷ "cudaMemset" ∷ "cuMemset" ∷ "cudaMemPrefetch" ∷ "cuMemPrefetch" ∷ []

module _ {I T : Type 0} where
  unfoldable pub is_cuda_runtime_activity : Event I T → Bool
  is_cuda_runtime_activity e =
      (attributes e).device == "CPU"
      && anyb (λ prefix. starts_with (codes (attributes e).name) (codes prefix))
          cuda_runtime_activity_prefixes

  -- `stack.extend(children)`; the head of the list is the top of the stack
  abbrev pub extend : Events I T → List (Event I T) → List (Event I T)
  extend no_events stack = stack
  extend (child e es) stack = extend es (e ∷ stack)

-- How many events stand in a tree: the fuel of the loop.
unfoldable mutual
  pub size : {I T : Type 0} → Event I T → ℕ
  size (event a children) = suc (size_all children)

  pub size_all : {I T : Type 0} → Events I T → ℕ
  size_all no_events = 0
  size_all (child e es) = size e + size_all es

-- `result.add(identifier)`
abbrev pub add_some : {I : Type 0} ⦃i : Eq I⦄ → Option I → List I → List I
add_some none ids = ids
add_some (some identifier) ids = if contains ids identifier then ids else identifier ∷ ids

module _ {I T : Type 0} ⦃i : Eq I⦄ where
  -- For a CUDA runtime activity with an ID.
  abbrev pub add_id : Event I T → List I → List I
  add_id e ids = if is_cuda_runtime_activity e then add_some (attributes e).id ids else ids

  -- The loop over the stack, on fuel.
  unfoldable pub collect_ids : ℕ → List (Event I T) → List I → List I
  collect_ids zero stack ids = ids
  collect_ids (suc fuel) [] ids = ids
  collect_ids (suc fuel) (e ∷ stack) ids =
      collect_ids fuel (extend (cpu_children e) stack) (add_id e ids)

  unfoldable pub correlated_cuda_ids : Event I T → List I
  correlated_cuda_ids root = collect_ids (size root) (extend (cpu_children root) []) []
