-- ===== src/Config/Positions.antt =====
-- The vectors are read by position: an AUDIO_UNIT descriptor that comes before those with a smaller
-- index is not where background_read_deduce_next looks for it.
use avdecc_lib.Aecp.Machine.{Aecp}
