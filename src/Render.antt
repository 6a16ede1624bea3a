-- ===== src/Render.antt =====
-- treble/render: the workspace of linked components, its layout, and its frames. A text is the list of
-- its code points.
pub mod Channel
pub mod Canvas
pub mod Layout
pub mod Frame
