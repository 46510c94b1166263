-- ===== src/Flame.antt =====
-- web/src/components/FlameGraph.tsx: the tree that the flame graph draws, and the component.
pub mod Tree
pub mod Chart
