-- ===== src/Progress/Estimate.antt =====
-- runtime/src/flow_job/flow.rs: what an update of the progress reports.
use oocana_rust.Base.{Bool, false, some, ◌≡◌, arith}
use oocana_rust.Progress.{Floats, NodeProgress, update_node_progress}

module _ {F : Type 0} (f : Floats F) where
  -- What f32 gives for bounds that are no NaN: neither lies beyond itself, and they do not cross.
  pub record HasBounds : Type 0 where
    pub zero_self : f.lt f.zero_f f.zero_f ≡ false
    pub top_self : f.lt f.ninety_five f.ninety_five ≡ false
    pub ordered : f.lt f.ninety_five f.zero_f ≡ false

  -- Where the bounds 0 and 95 are in order, a reported progress of the flow is neither below 0 nor
  -- above 95, whatever the numbers of the nodes.
  pub reported_within :
      (b : HasBounds) (p : F) (node : NodeProgress F) (force : Bool) (sum total r : F)
      → (update_node_progress f p node force sum total).reported ≡ some r
      → (f.lt r f.zero_f ≡ false) × (f.lt f.ninety_five r ≡ false)
  unfolding update_node_progress
  reported_within b p node force sum total r e = ground (arith)
