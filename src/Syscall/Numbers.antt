-- ===== src/Syscall/Numbers.antt =====
-- syscall.go: the architecture independent syscall numbers, counted by `iota`.
use Prim.Native.Nat.{ℕ}

pub data Nr : Type 0 where
  nr_none nr_reject nr_ignore nr_io_setup nr_io_destroy nr_io_submit nr_io_cancel : Nr
  nr_io_getevents nr_setxattr nr_lsetxattr nr_fsetxattr nr_getxattr nr_lgetxattr : Nr
  nr_fgetxattr nr_listxattr nr_llistxattr nr_flistxattr nr_removexattr nr_lremovexattr : Nr
  nr_fremovexattr nr_getcwd nr_lookup_dcookie nr_eventfd2 nr_epoll_create1 nr_epoll_ctl : Nr
  nr_epoll_pwait nr_dup nr_dup3 nr_fcntl nr_inotify_init1 nr_inotify_add_watch : Nr
  nr_inotify_rm_watch nr_ioctl nr_ioprio_set nr_ioprio_get nr_flock nr_mknodat nr_mkdirat : Nr
  nr_unlinkat nr_symlinkat nr_linkat nr_renameat nr_umount2 nr_mount nr_pivot_root : Nr
  nr_nfsservctl nr_statfs nr_fstatfs nr_truncate nr_ftruncate nr_fallocate nr_faccessat : Nr
  nr_chdir nr_fchdir nr_chroot nr_fchmod nr_fchmodat nr_fchownat nr_fchown nr_open : Nr
  nr_openat nr_close nr_vhangup nr_pipe2 nr_quotactl nr_getdents64 nr_lseek nr_read : Nr
  nr_write nr_readv nr_writev nr_pread64 nr_pwrite64 nr_preadv nr_pwritev nr_sendfile : Nr
  nr_pselect6 nr_ppoll nr_signalfd4 nr_vmsplice nr_splice nr_tee nr_readlinkat : Nr
  nr_fstatat64 nr_fstat64 nr_sync nr_fsync nr_fdatasync nr_sync_file_range : Nr
  nr_timerfd_create nr_timerfd_settime nr_timerfd_gettime nr_utimensat nr_acct nr_capget : Nr
  nr_capset nr_personality nr_exit nr_exit_group nr_waitid nr_set_tid_address nr_unshare : Nr
  nr_futex nr_set_robust_list nr_get_robust_list nr_nanosleep nr_getitimer nr_setitimer : Nr
  nr_kexec_load nr_init_module nr_delete_module nr_timer_create nr_timer_gettime : Nr
  nr_timer_getoverrun nr_timer_settime nr_timer_delete nr_clock_settime nr_clock_gettime : Nr
  nr_clock_getres nr_clock_nanosleep nr_syslog nr_ptrace nr_sched_setparam : Nr
  nr_sched_setscheduler nr_sched_getscheduler nr_sched_getparam nr_sched_setaffinity : Nr
  nr_sched_getaffinity nr_sched_yield nr_sched_get_priority_max nr_sched_get_priority_min : Nr
  nr_sched_rr_get_interval nr_restart_syscall nr_kill nr_tkill nr_tgkill nr_sigaltstack : Nr
  nr_rt_sigsuspend nr_rt_sigaction nr_rt_sigprocmask nr_rt_sigpending nr_rt_sigtimedwait : Nr
  nr_rt_sigqueueinfo nr_rt_sigreturn nr_setpriority nr_getpriority nr_reboot nr_setregid : Nr
  nr_setgid nr_setreuid nr_setuid nr_setresuid nr_getresuid nr_setresgid nr_getresgid : Nr
  nr_setfsuid nr_setfsgid nr_times nr_setpgid nr_getpgid nr_getsid nr_setsid nr_getgroups : Nr
  nr_setgroups nr_uname nr_sethostname nr_setdomainname nr_getrlimit nr_setrlimit : Nr
  nr_getrusage nr_umask nr_prctl nr_getcpu nr_gettimeofday nr_settimeofday nr_adjtimex : Nr
  nr_getpid nr_getppid nr_getuid nr_geteuid nr_getgid nr_getegid nr_gettid nr_sysinfo : Nr
  nr_mq_open nr_mq_unlink nr_mq_timedsend nr_mq_timedreceive nr_mq_notify : Nr
  nr_mq_getsetattr nr_msgget nr_msgctl nr_msgrcv nr_msgsnd nr_semget nr_semctl : Nr
  nr_semtimedop nr_semop nr_shmget nr_shmctl nr_shmat nr_shmdt nr_socket nr_socketpair : Nr
  nr_bind nr_listen nr_accept nr_connect nr_getsockname nr_getpeername nr_sendto : Nr
  nr_recvfrom nr_setsockopt nr_getsockopt nr_shutdown nr_sendmsg nr_recvmsg nr_readahead : Nr
  nr_brk nr_munmap nr_mremap nr_add_key nr_request_key nr_keyctl nr_clone nr_execve : Nr
  nr_mmap nr_mmap2 nr_fadvise64 nr_swapon nr_swapoff nr_mprotect nr_msync nr_mlock : Nr
  nr_munlock nr_mlockall nr_munlockall nr_mincore nr_madvise nr_remap_file_pages nr_mbind : Nr
  nr_get_mempolicy nr_set_mempolicy nr_migrate_pages nr_move_pages nr_rt_tgsigqueueinfo : Nr
  nr_perf_event_open nr_accept4 nr_recvmmsg nr_arch_specific_syscall nr_wait4 : Nr
  nr_prlimit64 nr_fanotify_init nr_fanotify_mark nr_name_to_handle_at : Nr
  nr_open_by_handle_at nr_clock_adjtime nr_syncfs nr_setns nr_sendmmsg : Nr
  nr_process_vm_readv nr_process_vm_writev nr_kcmp nr_finit_module nr_sched_setattr : Nr
  nr_sched_getattr nr_renameat2 nr_seccomp nr_getrandom nr_memfd_create nr_bpf : Nr
  nr_execveat nr_userfaultfd nr_membarrier nr_mlock2 nr_copy_file_range nr_preadv2 : Nr
  nr_pwritev2 nr_pkey_mprotect nr_pkey_alloc nr_pkey_free nr_statx nr_io_pgetevents : Nr
  nr_rseq nr_kexec_file_load : Nr

unfoldable pub number : Nr → ℕ
number nr_none = 0
number nr_reject = 1
number nr_ignore = 2
number nr_io_setup = 3
number nr_io_destroy = 4
number nr_io_submit = 5
number nr_io_cancel = 6
number nr_io_getevents = 7
number nr_setxattr = 8
number nr_lsetxattr = 9
number nr_fsetxattr = 10
number nr_getxattr = 11
number nr_lgetxattr = 12
number nr_fgetxattr = 13
number nr_listxattr = 14
number nr_llistxattr = 15
number nr_flistxattr = 16
number nr_removexattr = 17
number nr_lremovexattr = 18
number nr_fremovexattr = 19
number nr_getcwd = 20
number nr_lookup_dcookie = 21
number nr_eventfd2 = 22
number nr_epoll_create1 = 23
number nr_epoll_ctl = 24
number nr_epoll_pwait = 25
number nr_dup = 26
number nr_dup3 = 27
number nr_fcntl = 28
number nr_inotify_init1 = 29
number nr_inotify_add_watch = 30
number nr_inotify_rm_watch = 31
number nr_ioctl = 32
number nr_ioprio_set = 33
number nr_ioprio_get = 34
number nr_flock = 35
number nr_mknodat = 36
number nr_mkdirat = 37
number nr_unlinkat = 38
number nr_symlinkat = 39
number nr_linkat = 40
number nr_renameat = 41
number nr_umount2 = 42
number nr_mount = 43
number nr_pivot_root = 44
number nr_nfsservctl = 45
number nr_statfs = 46
number nr_fstatfs = 47
number nr_truncate = 48
number nr_ftruncate = 49
number nr_fallocate = 50
number nr_faccessat = 51
number nr_chdir = 52
number nr_fchdir = 53
number nr_chroot = 54
number nr_fchmod = 55
number nr_fchmodat = 56
number nr_fchownat = 57
number nr_fchown = 58
number nr_open = 59
number nr_openat = 60
number nr_close = 61
number nr_vhangup = 62
number nr_pipe2 = 63
number nr_quotactl = 64
number nr_getdents64 = 65
number nr_lseek = 66
number nr_read = 67
number nr_write = 68
number nr_readv = 69
number nr_writev = 70
number nr_pread64 = 71
number nr_pwrite64 = 72
number nr_preadv = 73
number nr_pwritev = 74
number nr_sendfile = 75
number nr_pselect6 = 76
number nr_ppoll = 77
number nr_signalfd4 = 78
number nr_vmsplice = 79
number nr_splice = 80
number nr_tee = 81
number nr_readlinkat = 82
number nr_fstatat64 = 83
number nr_fstat64 = 84
number nr_sync = 85
number nr_fsync = 86
number nr_fdatasync = 87
number nr_sync_file_range = 88
number nr_timerfd_create = 89
number nr_timerfd_settime = 90
number nr_timerfd_gettime = 91
number nr_utimensat = 92
number nr_acct = 93
number nr_capget = 94
number nr_capset = 95
number nr_personality = 96
number nr_exit = 97
number nr_exit_group = 98
number nr_waitid = 99
number nr_set_tid_address = 100
number nr_unshare = 101
number nr_futex = 102
number nr_set_robust_list = 103
number nr_get_robust_list = 104
number nr_nanosleep = 105
number nr_getitimer = 106
number nr_setitimer = 107
number nr_kexec_load = 108
number nr_init_module = 109
number nr_delete_module = 110
number nr_timer_create = 111
number nr_timer_gettime = 112
number nr_timer_getoverrun = 113
number nr_timer_settime = 114
number nr_timer_delete = 115
number nr_clock_settime = 116
number nr_clock_gettime = 117
number nr_clock_getres = 118
number nr_clock_nanosleep = 119
number nr_syslog = 120
number nr_ptrace = 121
number nr_sched_setparam = 122
number nr_sched_setscheduler = 123
number nr_sched_getscheduler = 124
number nr_sched_getparam = 125
number nr_sched_setaffinity = 126
number nr_sched_getaffinity = 127
number nr_sched_yield = 128
number nr_sched_get_priority_max = 129
number nr_sched_get_priority_min = 130
number nr_sched_rr_get_interval = 131
number nr_restart_syscall = 132
number nr_kill = 133
number nr_tkill = 134
number nr_tgkill = 135
number nr_sigaltstack = 136
number nr_rt_sigsuspend = 137
number nr_rt_sigaction = 138
number nr_rt_sigprocmask = 139
number nr_rt_sigpending = 140
number nr_rt_sigtimedwait = 141
number nr_rt_sigqueueinfo = 142
number nr_rt_sigreturn = 143
number nr_setpriority = 144
number nr_getpriority = 145
number nr_reboot = 146
number nr_setregid = 147
number nr_setgid = 148
number nr_setreuid = 149
number nr_setuid = 150
number nr_setresuid = 151
number nr_getresuid = 152
number nr_setresgid = 153
number nr_getresgid = 154
number nr_setfsuid = 155
number nr_setfsgid = 156
number nr_times = 157
number nr_setpgid = 158
number nr_getpgid = 159
number nr_getsid = 160
number nr_setsid = 161
number nr_getgroups = 162
number nr_setgroups = 163
number nr_uname = 164
number nr_sethostname = 165
number nr_setdomainname = 166
number nr_getrlimit = 167
number nr_setrlimit = 168
number nr_getrusage = 169
number nr_umask = 170
number nr_prctl = 171
number nr_getcpu = 172
number nr_gettimeofday = 173
number nr_settimeofday = 174
number nr_adjtimex = 175
number nr_getpid = 176
number nr_getppid = 177
number nr_getuid = 178
number nr_geteuid = 179
number nr_getgid = 180
number nr_getegid = 181
number nr_gettid = 182
number nr_sysinfo = 183
number nr_mq_open = 184
number nr_mq_unlink = 185
number nr_mq_timedsend = 186
number nr_mq_timedreceive = 187
number nr_mq_notify = 188
number nr_mq_getsetattr = 189
number nr_msgget = 190
number nr_msgctl = 191
number nr_msgrcv = 192
number nr_msgsnd = 193
number nr_semget = 194
number nr_semctl = 195
number nr_semtimedop = 196
number nr_semop = 197
number nr_shmget = 198
number nr_shmctl = 199
number nr_shmat = 200
number nr_shmdt = 201
number nr_socket = 202
number nr_socketpair = 203
number nr_bind = 204
number nr_listen = 205
number nr_accept = 206
number nr_connect = 207
number nr_getsockname = 208
number nr_getpeername = 209
number nr_sendto = 210
number nr_recvfrom = 211
number nr_setsockopt = 212
number nr_getsockopt = 213
number nr_shutdown = 214
number nr_sendmsg = 215
number nr_recvmsg = 216
number nr_readahead = 217
number nr_brk = 218
number nr_munmap = 219
number nr_mremap = 220
number nr_add_key = 221
number nr_request_key = 222
number nr_keyctl = 223
number nr_clone = 224
number nr_execve = 225
number nr_mmap = 226
number nr_mmap2 = 227
number nr_fadvise64 = 228
number nr_swapon = 229
number nr_swapoff = 230
number nr_mprotect = 231
number nr_msync = 232
number nr_mlock = 233
number nr_munlock = 234
number nr_mlockall = 235
number nr_munlockall = 236
number nr_mincore = 237
number nr_madvise = 238
number nr_remap_file_pages = 239
number nr_mbind = 240
number nr_get_mempolicy = 241
number nr_set_mempolicy = 242
number nr_migrate_pages = 243
number nr_move_pages = 244
number nr_rt_tgsigqueueinfo = 245
number nr_perf_event_open = 246
number nr_accept4 = 247
number nr_recvmmsg = 248
number nr_arch_specific_syscall = 249
number nr_wait4 = 250
number nr_prlimit64 = 251
number nr_fanotify_init = 252
number nr_fanotify_mark = 253
number nr_name_to_handle_at = 254
number nr_open_by_handle_at = 255
number nr_clock_adjtime = 256
number nr_syncfs = 257
number nr_setns = 258
number nr_sendmmsg = 259
number nr_process_vm_readv = 260
number nr_process_vm_writev = 261
number nr_kcmp = 262
number nr_finit_module = 263
number nr_sched_setattr = 264
number nr_sched_getattr = 265
number nr_renameat2 = 266
number nr_seccomp = 267
number nr_getrandom = 268
number nr_memfd_create = 269
number nr_bpf = 270
number nr_execveat = 271
number nr_userfaultfd = 272
number nr_membarrier = 273
number nr_mlock2 = 274
number nr_copy_file_range = 275
number nr_preadv2 = 276
number nr_pwritev2 = 277
number nr_pkey_mprotect = 278
number nr_pkey_alloc = 279
number nr_pkey_free = 280
number nr_statx = 281
number nr_io_pgetevents = 282
number nr_rseq = 283
number nr_kexec_file_load = 284
