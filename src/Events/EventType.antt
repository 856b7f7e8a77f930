-- ===== src/Events/EventType.antt =====
-- The event types of src/kernel/eventdriven/core/events.h, `EventType`. The field `type` of an
-- event is a `uint32_t` that user space writes, so it is a number and need not be one of these.
use box_kernel.Base.{ℕ}

abbrev pub event_none : ℕ
event_none = 0

abbrev pub memory_alloc : ℕ
memory_alloc = 1

abbrev pub memory_free : ℕ
memory_free = 2

abbrev pub memory_map : ℕ
memory_map = 3

abbrev pub file_open : ℕ
file_open = 10

abbrev pub file_close : ℕ
file_close = 11

abbrev pub file_read : ℕ
file_read = 12

abbrev pub file_write : ℕ
file_write = 13

abbrev pub file_stat : ℕ
file_stat = 14

abbrev pub file_create_tagged : ℕ
file_create_tagged = 15

abbrev pub file_query : ℕ
file_query = 16

abbrev pub file_tag_add : ℕ
file_tag_add = 17

abbrev pub file_tag_remove : ℕ
file_tag_remove = 18

abbrev pub file_tag_get : ℕ
file_tag_get = 19

abbrev pub net_socket : ℕ
net_socket = 20

abbrev pub net_connect : ℕ
net_connect = 21

abbrev pub net_send : ℕ
net_send = 22

abbrev pub net_recv : ℕ
net_recv = 23

abbrev pub proc_create : ℕ
proc_create = 30

abbrev pub proc_exit : ℕ
proc_exit = 31

abbrev pub proc_signal : ℕ
proc_signal = 32

abbrev pub proc_kill : ℕ
proc_kill = 33

abbrev pub proc_wait : ℕ
proc_wait = 34

abbrev pub proc_getpid : ℕ
proc_getpid = 35

abbrev pub dev_open : ℕ
dev_open = 40

abbrev pub dev_ioctl : ℕ
dev_ioctl = 41

abbrev pub dev_read : ℕ
dev_read = 42

abbrev pub dev_write : ℕ
dev_write = 43

abbrev pub timer_create : ℕ
timer_create = 50

abbrev pub timer_cancel : ℕ
timer_cancel = 51

abbrev pub timer_sleep : ℕ
timer_sleep = 52

abbrev pub timer_getticks : ℕ
timer_getticks = 53

abbrev pub ipc_send : ℕ
ipc_send = 60

abbrev pub ipc_recv : ℕ
ipc_recv = 61

abbrev pub ipc_shm_create : ℕ
ipc_shm_create = 62

abbrev pub ipc_shm_attach : ℕ
ipc_shm_attach = 63

abbrev pub ipc_pipe_create : ℕ
ipc_pipe_create = 64

abbrev pub event_max : ℕ
event_max = 255
