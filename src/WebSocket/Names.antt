-- ===== src/WebSocket/Names.antt =====
-- cwebsocket/websocket.h: the names of the header lines and the values that are looked for.
use extension_project.Prelude.{ℕ, List, [], ◌∷◌, codes}

abbrev pub connection : List ℕ
connection = codes "Connection: "

abbrev pub upgrade : List ℕ
upgrade = codes "Upgrade: "

abbrev pub host : List ℕ
host = codes "Host: "

abbrev pub origin : List ℕ
origin = codes "Origin: "

abbrev pub key : List ℕ
key = codes "Sec-WebSocket-Key: "

abbrev pub protocol : List ℕ
protocol = codes "Sec-WebSocket-Protocol: "

abbrev pub version : List ℕ
version = codes "Sec-WebSocket-Version: "

abbrev pub upgrade_word : List ℕ
upgrade_word = codes "upgrade"

abbrev pub websocket_word : List ℕ
websocket_word = codes "websocket"

abbrev pub version_word : List ℕ
version_word = codes "13"

abbrev pub crlf : List ℕ
crlf = 13 ∷ 10 ∷ []
