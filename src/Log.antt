-- ===== src/Log.antt =====
-- src/shared/log.ts: shortId and the format of a line; `stamp` is the time of day that stamp() gives.
use queue_flow.Base.{
  ℕ, zero, suc, ◌-◌, Option, none, some, [], ◌∷◌, ◌++◌, Text, codes, take, length,
}

pub short_id : Text → Text
short_id job_id = codes "job_" ++ take 8 job_id

spaces : ℕ → Text
spaces zero = []
spaces (suc n) = b' ' ∷ spaces n

-- `t.padEnd(n)`
pub pad_end : ℕ → Text → Text
unfolding spaces
pad_end n t = t ++ spaces (n - length t)

-- `jobId ? shortId(jobId) : ""`
id_text : Option Text → Text
unfolding short_id
id_text none = []
id_text (some []) = []
id_text (some (c ∷ cs)) = short_id (c ∷ cs)

pub format : Text → Text → Option Text → Text → Text
unfolding pad_end id_text
format stamp actor job_id message =
    stamp
    ++ (codes " ["
        ++ (pad_end 3 actor
            ++ (codes "] " ++ (pad_end 12 (id_text job_id) ++ (codes " " ++ message)))))
