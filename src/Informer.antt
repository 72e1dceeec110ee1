-- ===== src/Informer.antt =====
-- internal/informer/pod_informer.go: the list-and-watch loop. client-go's cache and the API server
-- are outside: the cache is an interface, and the server's answers are arguments.
pub mod Cache
pub mod Manager
pub mod Reconcile
pub mod Watch
pub mod Trace
pub mod Loop
pub mod ColdStart
pub mod Checkpoint
pub mod Lifecycle
pub mod Unread
pub mod Settings
