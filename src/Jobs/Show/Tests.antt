-- ===== src/Jobs/Show/Tests.antt =====
-- What `safe_text` and `log_path` of rootfs/usr/lib/rougarou/jobs.py give out.
use rougarou_os.Base.{◌≡◌, refl, ◌∷◌, [], ◌++◌, codes, all, leb, ok, err, Result, Text, List, ◌&&◌}
use rougarou_os.Jobs.Schema.{OperatorError, invalid_job_id}
use rougarou_os.Jobs.Show.{hex_text, safe_text, log_name, last_lines}

-- Printable are the characters from the space to the tilde.
shown : Text → Text
unfolding safe_text hex_text
shown t = safe_text (λ c. leb 32 c && leb c 126) t

shown_lem : shown (65 ∷ 27 ∷ 10 ∷ 8238 ∷ []) ≡ 65 ∷ codes "\\x1b" ++ 10 ∷ codes "\\x202e"
unfolding shown
shown_lem = refl

logged : Text → Result OperatorError Text
unfolding log_name all
logged t = log_name t

logged_lem :
    (logged (codes "0123456789abcdef") ≡ ok (codes "0123456789abcdef.log"))
    × (logged (codes "0123456789abcde/") ≡ err invalid_job_id)
unfolding logged
logged_lem = (refl, refl)

tail : List Text
unfolding last_lines
tail = last_lines 2 (codes "a" ∷ codes "b" ∷ codes "c" ∷ [])

tail_lem : tail ≡ codes "b" ∷ codes "c" ∷ []
unfolding tail
tail_lem = refl
