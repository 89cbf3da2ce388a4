-- ===== src/Redact/Tests.antt =====
-- Texts with and without addresses.
use slog_agent.Base.{some, Bytes, codes, index_byte, ◌≡◌, refl}
use slog_agent.Redact.Email.{redact_email, is_word, is_address}
use slog_agent.Redact.Signs.{IsMasked}
use slog_agent.Redact.Loop.{redact_email-IsMasked}

redact_email-one : redact_email (codes "to foo.bar@ex.com, 5@44") ≡ some (codes "to REDACTED, 5@44")
unfolding redact_email index_byte is_word is_address
redact_email-one = refl

redact_email-url : redact_email (codes "ssh://a@b.c a@b") ≡ some (codes "ssh://a@b.c REDACTED")
unfolding redact_email index_byte is_word is_address
redact_email-url = refl

redact_email-IsMasked_example :
    (out : Bytes) × (redact_email (codes "to foo.bar@ex.com.") ≡ some out)
    × IsMasked (codes "to foo.bar@ex.com.") out
redact_email-IsMasked_example = redact_email-IsMasked (codes "to foo.bar@ex.com.")
