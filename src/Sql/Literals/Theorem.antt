-- ===== src/Sql/Literals/Theorem.antt =====
-- The text of a normalized statement does not depend on its literals.
