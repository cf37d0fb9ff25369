-- ===== src/WorkQueue/Resources.antt =====
-- work_queue_resources.c: what a worker has, and the sum over workers. The `int64_t` counts are
-- integers that do not overflow.
use cyque.Prelude.Int.{ℤ, pos, negsuc, ◌+ℤ◌, min_ℤ, max_ℤ}

pub record Resource : Type 0 where
  pub inuse : ℤ
  pub committed : ℤ
  pub total : ℤ
  pub smallest : ℤ
  pub largest : ℤ

pub record Resources : Type 0 where
  pub tag : ℤ
  pub workers : Resource
  pub disk : Resource
  pub cores : Resource
  pub memory : Resource
  pub gpus : Resource
  pub unlabeled : Resource

abbrev pub no_resource : Resource
no_resource = record {
  inuse = pos 0;
  committed = pos 0;
  total = pos 0;
  smallest = pos 0;
  largest = pos 0;
}

-- `memset(r,0,sizeof(*r))`
unfoldable pub cleared : Resources
cleared = record {
  tag = pos 0;
  workers = no_resource;
  disk = no_resource;
  cores = no_resource;
  memory = no_resource;
  gpus = no_resource;
  unlabeled = no_resource;
}

unfoldable pub create : Resources
unfolding cleared
create = record cleared { tag = negsuc 0 }

unfoldable pub add_one : Resource → Resource → Resource
add_one total r = record {
  inuse = total.inuse +ℤ r.inuse;
  committed = total.committed +ℤ r.committed;
  total = total.total +ℤ r.total;
  smallest = min_ℤ total.smallest r.smallest;
  largest = max_ℤ total.largest r.largest;
}

unfoldable pub add : Resources → Resources → Resources
unfolding add_one
add total r = record {
  tag = total.tag;
  workers = add_one total.workers r.workers;
  memory = add_one total.memory r.memory;
  disk = add_one total.disk r.disk;
  gpus = add_one total.gpus r.gpus;
  unlabeled = add_one total.unlabeled r.unlabeled;
  cores = add_one total.cores r.cores;
}
