-- ===== src/Input/Protocol.antt =====
-- input/syslogprotocol: the names of facilities and severities, and `TestRecordStart`.
pub mod Start
use slog_agent.Base.{
  ℕ, zero, suc, ◌+◌, Bool, false, not, ◌&&◌, ◌||◌, List, [], ◌∷◌, ltb, leb, ◌==◌, if◌then◌else◌,
  length, get_or, Bytes, codes,
}

abbrev pub facility_names : List Bytes
facility_names =
    codes "kern"
    ∷ codes "user"
    ∷ codes "mail"
    ∷ codes "daemon"
    ∷ codes "auth"
    ∷ codes "syslog"
    ∷ codes "lpr"
    ∷ codes "news"
    ∷ codes "uucp"
    ∷ codes "cron"
    ∷ codes "authpriv"
    ∷ codes "ftp"
    ∷ codes "ntp"
    ∷ codes "audit"
    ∷ codes "alert"
    ∷ codes "clock"
    ∷ codes "local0"
    ∷ codes "local1"
    ∷ codes "local2"
    ∷ codes "local3"
    ∷ codes "local4"
    ∷ codes "local5"
    ∷ codes "local6"
    ∷ codes "local7"
    ∷ []

abbrev pub severity_names : List Bytes
severity_names =
    codes "emerg"
    ∷ codes "alert"
    ∷ codes "crit"
    ∷ codes "err"
    ∷ codes "warn"
    ∷ codes "notice"
    ∷ codes "info"
    ∷ codes "debug"
    ∷ []

abbrev at : Bytes → ℕ → ℕ
at s i = get_or s i 0

abbrev pub is_digit : ℕ → Bool
is_digit c = leb b'0' c && leb c b'9'

-- The loop `for i = 2; i < 4; i++`, with `rounds` rounds left, and the return behind it. No index
-- passes 6, and `s` has 32 bytes here.
test_loop : ℕ → ℕ → Bytes → Bool
test_loop zero i s = at s i == b'>' && at s (i + 1) == b'1' && at s (i + 2) == b' '
test_loop (suc rounds) i s =
    let c = at s i in
    if c == b'>'
    then at s (i + 1) == b'1' && at s (i + 2) == b' '
    else if ltb c b'0' || ltb b'9' c
    then false
    else test_loop rounds (i + 1) s

unfoldable pub test_record_start : Bytes → Bool
unfolding test_loop
test_record_start s =
    if ltb (length s) 32
    then false
    else if not (at s 0 == b'<')
    then false
    else if ltb (at s 1) b'0' || ltb b'9' (at s 1)
    then false
    else test_loop 2 2 s
