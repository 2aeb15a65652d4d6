-- ===== src/Ginkgo.antt =====
-- What the code relies on of github.com/onsi/ginkgo/v2/types, which is not in the repository: the
-- states of a spec, their set of failure states, and the node types. The reports hold the fields
-- that internal/results reads.
use qrl_tests.Prelude.{ℕ, String, Bool, true, false, List, ◌≡◌, ◌↔◌, ◌≢◌}

pub record Ginkgo : Type 1 where
  pub SpecState : Type 0
  pub same_state : SpecState → SpecState → Bool
  pub same_state_iff : (s t : SpecState) → (same_state s t ≡ true) ↔ (s ≡ t)
  pub state_text : SpecState → String
  pub passed : SpecState
  pub pending : SpecState
  pub skipped : SpecState
  pub timedout : SpecState
  pub interrupted : SpecState
  pub passed_ne_pending : passed ≢ pending
  pub passed_ne_skipped : passed ≢ skipped
  -- spec.State.Is(types.SpecStateFailureStates)
  pub is_failure_state : SpecState → Bool
  pub passed_no_failure : is_failure_state passed ≡ false
  pub pending_no_failure : is_failure_state pending ≡ false
  pub skipped_no_failure : is_failure_state skipped ≡ false
  pub timedout_failure : is_failure_state timedout ≡ true
  pub interrupted_failure : is_failure_state interrupted ≡ true
  pub NodeType : Type 0
  -- nodeType == types.NodeTypeIt
  pub is_it : NodeType → Bool
  pub node_text : NodeType → String

module _ (g : Ginkgo) where
  pub record SpecReport : Type 0 where
    pub container_hierarchy_texts : List String
    pub leaf_node_type : g.NodeType
    pub leaf_node_text : String
    pub state : g.SpecState
    pub failure_message : String
    pub failure_file_name : String
    pub failure_line_number : ℕ

  pub record Report : Type 0 where
    pub suite_description : String
    pub suite_path : String
    pub suite_succeeded : Bool
    pub special_suite_failure_reasons : List String
    pub spec_reports : List SpecReport
