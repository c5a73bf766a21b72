-- ===== src/Rlimit/Kernel.antt =====
-- What the manual page of getrlimit and setrlimit says of a process that may raise its limits: the limits
-- after a history of calls, and the answers that agree with them.
use mckernel_ostest_arm.Base.{
  ℕ, arith, ◌≡◌, refl, sym, ap, ◌∙◌, get_or, List, [], ◌∷◌, Bool, true, false, ◌==◌, ltb,
  if◌then◌else◌,
}
use mckernel_ostest_arm.Base.Int.{pos, negsuc}
use mckernel_ostest_arm.Base.Trace.{Env}
use mckernel_ostest_arm.Rlimit.{
  Resource, Rlimit, Event, Answer, einval, getrlimit, setrlimit, rlimit_as, rlimit_core, rlimit_cpu,
  rlimit_data, rlimit_fsize, rlimit_locks, rlimit_memlock, rlimit_msgqueue, rlimit_nice,
  rlimit_nofile, rlimit_nproc, rlimit_rss, rlimit_rtprio, rlimit_sigpending, rlimit_stack,
  rlimit_nlimits,
}

-- The resources by number, to tell them apart.
abbrev pub index : Resource → ℕ
index rlimit_as = 0
index rlimit_core = 1
index rlimit_cpu = 2
index rlimit_data = 3
index rlimit_fsize = 4
index rlimit_locks = 5
index rlimit_memlock = 6
index rlimit_msgqueue = 7
index rlimit_nice = 8
index rlimit_nofile = 9
index rlimit_nproc = 10
index rlimit_rss = 11
index rlimit_rtprio = 12
index rlimit_sigpending = 13
index rlimit_stack = 14
index rlimit_nlimits = 15

resources : List Resource
resources =
    rlimit_as ∷ rlimit_core ∷ rlimit_cpu ∷ rlimit_data ∷ rlimit_fsize ∷ rlimit_locks
    ∷ rlimit_memlock ∷ rlimit_msgqueue ∷ rlimit_nice ∷ rlimit_nofile ∷ rlimit_nproc ∷ rlimit_rss
    ∷ rlimit_rtprio ∷ rlimit_sigpending ∷ rlimit_stack ∷ rlimit_nlimits ∷ []

resources-index : (r : Resource) → get_or resources (index r) rlimit_as ≡ r
unfolding resources
resources-index rlimit_as = refl
resources-index rlimit_core = refl
resources-index rlimit_cpu = refl
resources-index rlimit_data = refl
resources-index rlimit_fsize = refl
resources-index rlimit_locks = refl
resources-index rlimit_memlock = refl
resources-index rlimit_msgqueue = refl
resources-index rlimit_nice = refl
resources-index rlimit_nofile = refl
resources-index rlimit_nproc = refl
resources-index rlimit_rss = refl
resources-index rlimit_rtprio = refl
resources-index rlimit_sigpending = refl
resources-index rlimit_stack = refl
resources-index rlimit_nlimits = refl

pub index-injective : (r s : Resource) → index r ≡ index s → r ≡ s
index-injective r s same =
    sym (resources-index r) ∙ (ap (λ i. get_or resources i rlimit_as) same ∙ resources-index s)

abbrev pub Limits : Type 0
Limits = Resource → Rlimit

abbrev pub update : Resource → Rlimit → Limits → Limits
update r new l s = if index r == index s then new else l s

-- A limit above its own greatest one is not set.
abbrev pub set_limit : Resource → Rlimit → Limits → Limits
set_limit r new l = if ltb new.rlim_max new.rlim_cur then l else update r new l

abbrev pub limits : Limits → List Event → Limits
limits l [] = l
limits l (getrlimit r ∷ h) = limits l h
limits l (setrlimit r new ∷ h) = set_limit r new (limits l h)

abbrev pub Granted : (refused : Bool) → Answer → Type 0
Granted true a = (a.ret ≡ negsuc 0) × (a.errno ≡ einval)
Granted false a = a.ret ≡ pos 0

abbrev pub Shown : (known : Bool) → Rlimit → Answer → Type 0
Shown true now a = (a.ret ≡ pos 0) × (a.rlim ≡ now)
Shown false now a = (a.ret ≡ negsuc 0) × (a.errno ≡ einval)

-- The answer to a call while the limits are `l`.
abbrev pub Agrees : Limits → Event → Answer → Type 0
Agrees l (getrlimit r) a = Shown (ltb (index r) 15) (l r) a
Agrees l (setrlimit r new) a = Granted (ltb new.rlim_max new.rlim_cur) a

-- A system that behaves so.
abbrev pub kernel : Limits → Env Event Answer
kernel l h (getrlimit r) =
    if ltb (index r) 15
    then record { ret = pos 0; errno = 0; rlim = limits l h r }
    else record { ret = negsuc 0; errno = einval; rlim = limits l h r }
kernel l h (setrlimit r new) = record {
  ret = if ltb new.rlim_max new.rlim_cur then negsuc 0 else pos 0;
  errno = if ltb new.rlim_max new.rlim_cur then einval else 0;
  rlim = new;
}

pub kernel-Agrees : (l : Limits) (h : List Event) (e : Event) → Agrees (limits l h) e (kernel l h e)
kernel-Agrees l h (getrlimit r) = ground arith
kernel-Agrees l h (setrlimit r new) = ground arith
