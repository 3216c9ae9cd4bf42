-- ===== src/Lms/Op.antt =====
-- The opcodes of src/lms/slimproto_protocol.h. `setd_server` is the lower-case opcode of the server.
use squeeze2raop.Base.{ℕ, List, codes}

abbrev pub helo : List ℕ
helo = codes "HELO"

abbrev pub stat : List ℕ
stat = codes "STAT"

abbrev pub resp : List ℕ
resp = codes "RESP"

abbrev pub setd : List ℕ
setd = codes "SETD"

abbrev pub dsco : List ℕ
dsco = codes "DSCO"

abbrev pub butn : List ℕ
butn = codes "BUTN"

abbrev pub meta : List ℕ
meta = codes "META"

abbrev pub setd_server : List ℕ
setd_server = codes "setd"

abbrev pub strm : List ℕ
strm = codes "strm"

abbrev pub cont : List ℕ
cont = codes "cont"

abbrev pub codc : List ℕ
codc = codes "codc"

abbrev pub audg : List ℕ
audg = codes "audg"

abbrev pub aude : List ℕ
aude = codes "aude"

abbrev pub serv : List ℕ
serv = codes "serv"
