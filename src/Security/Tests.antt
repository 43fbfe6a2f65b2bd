-- ===== src/Security/Tests.antt =====
-- A script that is cleaned.
use vibranium_quadsquad.Base.{◌≡◌, true}
use vibranium_quadsquad.Security.{sanitize_input}
use vibranium_quadsquad.Security.Clean.{is_harmless, all_chars, sanitize_input-harmless}

sanitize_input-harmless_example :
    all_chars is_harmless (sanitize_input "<script>alert('x' & \"y\")</script>") ≡ true
sanitize_input-harmless_example = sanitize_input-harmless "<script>alert('x' & \"y\")</script>"
