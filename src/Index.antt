-- ===== src/Index.antt =====
-- sim/include/index and sim/src/index: which component types there are, and which components an
-- entity has.
pub mod TypeIndex
pub mod EntityIndex
use TypeIndex
use EntityIndex

-- sim/include/index/indexStore.h
pub record IndexStore : Type 0 where
  pub component_type : TypeIndex.TypeIndex
  pub entity : EntityIndex.EntityIndex

abbrev pub empty : IndexStore
empty = record { component_type = TypeIndex.empty; entity = EntityIndex.empty }
