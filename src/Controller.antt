-- ===== src/Controller.antt =====
-- controllers/taloscontrolplane_controller.go: the handler of a TalosControlPlane.
pub mod Delete
pub mod Status
