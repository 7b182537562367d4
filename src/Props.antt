-- ===== src/Props.antt =====
-- internal/props: the property tree of an object. Value holds what a property carries, Order the byte
-- order of the keys, Tree the tree's operations (props.go), Perms the path predicates (perms.go).
pub mod Value
pub mod Order
pub mod Tree
pub mod Perms
mod Tests
