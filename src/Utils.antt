-- ===== src/Utils.antt =====
-- crates/monoio/src/utils: the intrusive linked list.
pub mod LinkedList
