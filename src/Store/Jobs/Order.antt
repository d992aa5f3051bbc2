-- ===== src/Store/Jobs/Order.antt =====
-- The order in which jobs are claimed: by priority, then by the instant from which they may run.
use clipper_ai.Base.{◌≡◌, true, false, arith}
use clipper_ai.Base.Sort.{IsOrder}
use clipper_ai.Store.Jobs.{JobRecord, job_before}

before_asym : (a b : JobRecord) → job_before a b ≡ true → job_before b a ≡ false
before_asym a b h = ground arith

before_trans :
    (a b c : JobRecord) → job_before b a ≡ false → job_before c b ≡ false → job_before c a ≡ false
before_trans a b c h k = ground arith

pub job_before-IsOrder : IsOrder job_before
job_before-IsOrder = record { asym = before_asym; trans = before_trans }
