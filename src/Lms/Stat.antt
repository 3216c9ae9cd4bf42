-- ===== src/Lms/Stat.antt =====
-- The STAT event codes of src/lms/slimproto_protocol.h.
use squeeze2raop.Base.{ℕ, List, codes}

abbrev pub heartbeat : List ℕ
heartbeat = codes "STMt"

abbrev pub flush : List ℕ
flush = codes "STMf"

abbrev pub pause : List ℕ
pause = codes "STMp"

abbrev pub resume : List ℕ
resume = codes "STMr"

abbrev pub autostart : List ℕ
autostart = codes "STMl"

abbrev pub start : List ℕ
start = codes "STMs"

abbrev pub done : List ℕ
done = codes "STMd"

abbrev pub error : List ℕ
error = codes "STMn"

abbrev pub underrun : List ℕ
underrun = codes "STMo"

abbrev pub connect : List ℕ
connect = codes "STMc"

abbrev pub end : List ℕ
end = codes "STMu"
