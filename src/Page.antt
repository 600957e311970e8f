-- ===== src/Page.antt =====
-- The pages in the browser, web/public/app under src/apps/Control/app/ControlServer.
pub mod Table
pub mod Workers
