-- ===== src/Tests.antt =====
-- The theorems at concrete inputs.
mod Rtp
mod PitchShifter
mod Audio
mod Buffer
mod Session
mod Loop
mod Graph
mod Http
mod Files
