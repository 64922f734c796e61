-- ===== src/Web.antt =====
-- packages/web/src/lib: the rules that the pages apply before they send a request.
pub mod OrderForm
