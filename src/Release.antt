-- ===== src/Release.antt =====
-- github_release.py: the publisher of a release, over a transport and a disk that are parameters. Its
-- world notes what was sent, with the answers, the latest first.
pub mod Wire
pub mod Coordinates
pub mod Prepare
pub mod Lookup
pub mod Assets
pub mod Publish
pub mod Keeps
pub mod Listed
pub mod Careful
pub mod Complete
pub mod Shown
pub mod Proven
pub mod Source
