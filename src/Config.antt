-- ===== src/Config.antt =====
-- main.py and lib/uav.py: what becomes of the configuration before the processes start, and the merging
-- of control inputs. The modules below hold the command line, the merging of templates, the enumeration
-- names and the choice of the backend.
pub mod Merge
pub mod Override
pub mod Apply
pub mod Casting
pub mod Kinds
pub mod Placeholders
pub mod Templates
pub mod Membership
pub mod Prepared
pub mod Names
pub mod Members
pub mod Backend
pub mod Choosing
pub mod Endpoints
pub mod Selection
pub mod Tests
