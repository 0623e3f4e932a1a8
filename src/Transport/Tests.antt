-- ===== src/Transport/Tests.antt =====
-- The common configuration on one driver's writes.
use nesbox.Base.{◌≡◌, refl, false, [], ◌∷◌}
use nesbox.Virtqueue.{QState}
use nesbox.Transport.{ComCfg, QueueView, parse_write}

abbrev queue : QState
queue = record {
  desc = 0;
  avail = 0;
  used = 0;
  size = 256;
  enabled = false;
  last = 0;
  vec = 0;
  indirect = false;
  event_idx = false;
}

abbrev fresh : ComCfg
fresh = record { dfs = 0; dff = 0; df = 0; st = 0 }

abbrev view : QueueView
view = record {
  qsel = 0;
  qsize = 256;
  qvec = 0;
  qen = 0;
  qnoff = 0;
  qdlo = 0;
  qdhi = 0;
  qalo = 0;
  qahi = 0;
  qulo = 0;
  quhi = 0;
}

parse_write_test : parse_write (0x34 ∷ 0x12 ∷ []) ≡ (0x1234, 0x1234, 0x34)
unfolding parse_write
parse_write_test = refl
