-- ===== src/Tests.antt =====
-- The modules on concrete inputs.
mod Shell
mod Names
mod Version
mod Scanner
mod ReqFile
mod FileModel
mod Places
mod Suggest
mod Replace
mod Latest
mod Merge
mod Win32
mod Cdb
mod Release
mod Inspection
mod Wheels
mod TaskTree
mod Setup
mod Changelog
