-- ===== src/Memory/Get.antt =====
-- What `get_mem` and `free_mem` promise, with the virtual memory manager of i386.
use feline_os.Paging.{Paging}
