-- ===== src/Anchoring/Accepted.antt =====
-- What `anchorTimes` accepts without an error.
use sigillo.Common.{List}
use sigillo.Text.{Text}
