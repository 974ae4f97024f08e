-- ===== src/Progress.antt =====
-- runtime/src/flow_job/flow.rs: the estimated progress of a flow, from that of its nodes.
pub mod Estimate
use oocana_rust.Base.{
  String, Bool, true, false, not, ◌&&◌, ◌||◌, Option, none, some, List, [], ◌∷◌, if◌then◌else◌, map,
}
use oocana_rust.Base.Map
use oocana_rust.Base.Map.{Map}

-- The operations of f32 that the estimate uses.
pub record Floats (F : Type 0) : Type 0 where
  pub zero_f : F
  pub hundred : F
  pub ninety_five : F
  pub epsilon : F
  pub add : F → F → F
  pub sub : F → F → F
  pub mul : F → F → F
  pub div : F → F → F
  pub abs : F → F
  pub max : F → F → F
  pub lt : F → F → Bool
  pub le : F → F → Bool
  pub eq : F → F → Bool

pub record NodeProgress (F : Type 0) : Type 0 where
  pub progress : F
  pub weight : F

-- The variables of the task that runs the flow.
pub record FlowProgress (F : Type 0) : Type 0 where
  pub nodes : Map (NodeProgress F)
  pub sum : F
  pub total_weight : F

pub record Updated (F : Type 0) : Type 0 where
  pub node : NodeProgress F
  pub sum : F
  pub reported : Option F

module _ {F : Type 0} (f : Floats F) where
  -- f32::clamp
  unfoldable pub clamp : F → F → F → F
  clamp x lo hi = if f.lt x lo then lo else if f.lt hi x then hi else x

  unfoldable pub update_node_progress : F → NodeProgress F → Bool → F → F → Updated F
  unfolding clamp
  update_node_progress progress node force sum total =
      if (f.eq node.weight f.zero_f
          || f.le f.hundred node.progress
          || f.lt (f.abs (f.sub progress node.progress)) f.epsilon)
        && not force
      then record { node = node; sum = sum; reported = none }
      else let new_progress = clamp (f.max node.progress progress) f.zero_f f.hundred in
        let old_weighted = f.mul node.progress node.weight in
        let new_weighted = f.mul new_progress node.weight in
        let sum' = f.add sum (f.sub new_weighted old_weighted) in
        record {
          node = record node { progress = new_progress };
          sum = sum';
          reported =
              if f.lt f.zero_f total
              then some (clamp (f.div sum' total) f.zero_f f.ninety_five)
              else none;
        }

  -- `get_mut` of the node and its update.
  unfoldable pub advance : String → F → Bool → FlowProgress F → FlowProgress F × Option F
  unfolding update_node_progress
  advance n progress force p = elim (Map.get n p.nodes) [
    | none ↦ (p, none)
    | some node ↦
        let u = update_node_progress progress node force p.sum p.total_weight in
        (record p { nodes = Map.insert n u.node p.nodes; sum = u.sum }, u.reported)
  ]

  -- UpdateNodeWeight: the sums are corrected for the new weight, then the progress is reported anew.
  unfoldable pub change_weight : String → F → FlowProgress F → FlowProgress F × Option F
  unfolding update_node_progress
  change_weight n weight p = elim (Map.get n p.nodes) [
    | none ↦ (p, none)
    | some node ↦
        let total = f.add p.total_weight (f.sub weight node.weight) in
        let sum =
          f.add (f.sub p.sum (f.mul node.progress node.weight)) (f.mul node.progress weight) in
        let u =
          update_node_progress node.progress (record node { weight = weight }) true sum total in
        (
          record { nodes = Map.insert n u.node p.nodes; sum = u.sum; total_weight = total },
          u.reported,
        )
  ]
