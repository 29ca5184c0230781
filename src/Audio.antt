-- ===== src/Audio.antt =====
-- src/infra/audio: samples, the A-law codec, WAV headers and mixing arithmetic.
pub mod Pcm
pub mod Alaw
pub mod Codec
pub mod Wav
pub mod Mixing
pub mod PitchShifter
